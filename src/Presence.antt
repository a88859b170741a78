-- ===== src/Presence.antt =====
-- Presence and typing indicators: app/services/presence_service.py, app/services/typing_service.py.
pub mod Stored
pub mod Heartbeat
pub mod Online
use fastapi_realtime_chat.Prelude.{
  ℕ, Bool, true, false, Option, none, some, List, [], ◌∷◌, ◌++◌, nat_beq, if◌then◌else◌, is_some,
  Text, codes, nat_eq, text_eq, strip_prefix,
}
use fastapi_realtime_chat.Exec.{Exec, ◌>>=◌, ◌>>◌}
use fastapi_realtime_chat.Sql.{Sql}
use fastapi_realtime_chat.Redis.{Redis}
use fastapi_realtime_chat.Protocol.{presence, online, offline, typing}
use fastapi_realtime_chat.Backend.{Backend, command, query, publish}

-- The settings of app/core/config.py that these services read.
pub record TtlSettings : Type 0 where
  pub presence_ttl_seconds : ℕ
  pub typing_ttl_seconds : ℕ

abbrev pub default_ttl : TtlSettings
default_ttl = record { presence_ttl_seconds = 300; typing_ttl_seconds = 5 }

abbrev pub presence_key : Text → Text
presence_key user_id = codes "presence:" ++ user_id

abbrev pub presence_channel : Text
presence_channel = codes "channel:presence"

-- `_key` and `_channel` of the typing service.
abbrev pub typing_key : (room_id user_id : Text) → Text
typing_key room_id user_id = codes "typing:" ++ (room_id ++ (codes ":" ++ user_id))

abbrev pub typing_channel : Text → Text
typing_channel room_id = codes "channel:typing:" ++ room_id

pub record OnlineUser : Type 0 where
  pub user_id : Text
  pub username : Text

-- `s.removeprefix(p)`
abbrev pub remove_prefix : Text → Text → Text
remove_prefix p s = elim (strip_prefix p s) [ none ↦ s | some rest ↦ rest ]

-- `key.split(":")[-1]`: `last` is what has been read since the last colon.
abbrev pub last_part : Text → Text → Text
last_part last [] = last
last_part last (c ∷ s) = last_part (if nat_beq c b':' then [] else last ++ c ∷ []) s

-- The loop over `zip(keys, usernames)`, which skips the names that are gone or empty.
abbrev pub listed : (Text → Text) → (Text → Option Text) → List Text → List OnlineUser
listed user_of name_of [] = []
listed user_of name_of (key ∷ keys) =
    let rest = listed user_of name_of keys in
    elim (name_of key) [
      | none ↦ rest
      | some [] ↦ rest
      | some (c ∷ name) ↦ record { user_id = user_of key; username = c ∷ name } ∷ rest
    ]

module _ {sql : Sql} {redis : Redis} (settings : TtlSettings) where
  unfoldable pub set_online : (user_id username : Text) → Exec (Backend sql redis) (Unit {0})
  set_online user_id username = do
    command (redis.setex (presence_key user_id) settings.presence_ttl_seconds username)
    publish presence_channel (presence user_id username online)

  unfoldable pub refresh_presence : (user_id username : Text) → Exec (Backend sql redis) (Unit {0})
  refresh_presence user_id username =
      command (redis.setex (presence_key user_id) settings.presence_ttl_seconds username)

  unfoldable pub start_typing :
      (room_id user_id username : Text) → Exec (Backend sql redis) (Unit {0})
  start_typing room_id user_id username = do
    command (redis.setex (typing_key room_id user_id) settings.typing_ttl_seconds username)
    publish (typing_channel room_id) (typing room_id user_id username true)

module _ {sql : Sql} {redis : Redis} where
  unfoldable pub set_offline : (user_id username : Text) → Exec (Backend sql redis) (Unit {0})
  set_offline user_id username = do
    command (redis.del (presence_key user_id))
    publish presence_channel (presence user_id username offline)

  unfoldable pub get_online_users : Exec (Backend sql redis) (List OnlineUser)
  get_online_users = query (λ store.
      listed (remove_prefix (codes "presence:")) (λ key. redis.get key store)
        (redis.keys (codes "presence:") store))

  unfoldable pub is_online : (user_id : Text) → Exec (Backend sql redis) Bool
  is_online user_id = query (λ store. is_some (redis.get (presence_key user_id) store))

  unfoldable pub stop_typing :
      (room_id user_id username : Text) → Exec (Backend sql redis) (Unit {0})
  stop_typing room_id user_id username = do
    command (redis.del (typing_key room_id user_id))
    publish (typing_channel room_id) (typing room_id user_id username false)

  unfoldable pub get_typing_users : (room_id : Text) → Exec (Backend sql redis) (List OnlineUser)
  get_typing_users room_id = query (λ store.
      listed (last_part []) (λ key. redis.get key store)
        (redis.keys (codes "typing:" ++ (room_id ++ codes ":")) store))
