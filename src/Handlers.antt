-- ===== src/Handlers.antt =====
-- The handlers of the client's messages: app/websocket/handlers.py.
pub mod Frame
use fastapi_realtime_chat.Prelude.{
  ℕ, Bool, true, false, ◌&&◌, Option, none, some, List, [], ◌∷◌, if◌then◌else◌, ◌==◌, Text, codes,
  nat_eq, text_eq,
}
use fastapi_realtime_chat.Exec.{value_error, Result, ok, err, Exec, pure, lift, ◌>>=◌, ◌>>◌}
use fastapi_realtime_chat.Uuid
use fastapi_realtime_chat.Sql.{Sql}
use fastapi_realtime_chat.Redis.{Redis}
use fastapi_realtime_chat.Protocol.{Socket}
use fastapi_realtime_chat.Models.{User, Fresh}
use fastapi_realtime_chat.Backend.{Backend}
use fastapi_realtime_chat.Chat.{send_message, mark_messages_read}
use fastapi_realtime_chat.Presence.{TtlSettings, start_typing, stop_typing}

-- A message of the client: the fields that the handlers read.
pub record Payload : Type 0 where
  pub type : Option Text
  pub content : Option Text
  pub image_url : Option Text
  pub message_ids : Option (List Text)

-- What the outside gives to a connection: which sockets take messages, the time, and the defaults
-- of new rows.
pub record Outside : Type 0 where
  pub alive : Socket → Bool
  pub settings : TtlSettings
  pub now : ℕ
  pub fresh : ℕ → Fresh

abbrev pub is_empty : Option Text → Bool
is_empty none = true
is_empty (some []) = true
is_empty (some (c ∷ s)) = false

abbrev pub text_or_empty : Option Text → Text
text_or_empty none = []
text_or_empty (some t) = t

-- `[uuid.UUID(mid) for mid in raw_ids]`; `none` is the `ValueError`.
abbrev pub parse_ids : List Text → Option (List ℕ)
parse_ids [] = some []
parse_ids (t ∷ ts) = elim (Uuid.parse t) [
  | none ↦ none
  | some id ↦ elim (parse_ids ts) [ none ↦ none | some ids ↦ some (id ∷ ids) ]
]

abbrev pub all_ids : List Text → Bool
all_ids [] = true
all_ids (t ∷ ts) = elim (Uuid.parse t) [ none ↦ false | some id ↦ all_ids ts ]

-- `if not raw_ids`
abbrev pub no_ids : Option (List Text) → Bool
no_ids none = true
no_ids (some []) = true
no_ids (some (t ∷ ts)) = false

abbrev pub list_or_empty : Option (List Text) → List Text
list_or_empty none = []
list_or_empty (some ts) = ts

abbrev pub room_uuid : Text → Result ℕ
room_uuid room_id = elim (Uuid.parse room_id) [ none ↦ err value_error | some id ↦ ok id ]

-- The keys of `_DISPATCH`.
pub data Kind : Type 0 where
  chat_message typing_start typing_stop mark_read unknown : Kind

unfoldable pub kind_of : Text → Kind
kind_of t =
    if t == codes "chat_message"
    then chat_message
    else if t == codes "typing_start"
    then typing_start
    else if t == codes "typing_stop"
    then typing_stop
    else if t == codes "mark_read"
    then mark_read
    else unknown

module _ {sql : Sql} {redis : Redis} (out : Outside) where
  unfoldable pub handle_chat_message :
      Payload → User → (room_id : Text) → Exec (Backend sql redis) (Unit {0})
  handle_chat_message payload u room_id =
      if is_empty payload.content && is_empty payload.image_url then pure tt else do
        room ← lift (room_uuid room_id)
        send_message (out.fresh 0) room u.id payload.content payload.image_url
        pure tt

  abbrev pub mark_ids :
      Option (List ℕ) → User → (room_id : Text) → Exec (Backend sql redis) (Unit {0})
  mark_ids none u room_id = pure tt
  mark_ids (some ids) u room_id = do
    room ← lift (room_uuid room_id)
    mark_messages_read out.fresh room u.id ids

  abbrev pub mark_raw_ids :
      Option (List Text) → User → (room_id : Text) → Exec (Backend sql redis) (Unit {0})
  mark_raw_ids none u room_id = pure tt
  mark_raw_ids (some []) u room_id = pure tt
  mark_raw_ids (some (t ∷ ts)) u room_id = mark_ids (parse_ids (t ∷ ts)) u room_id

  unfoldable pub handle_mark_read :
      Payload → User → (room_id : Text) → Exec (Backend sql redis) (Unit {0})
  handle_mark_read payload u room_id = mark_raw_ids payload.message_ids u room_id

  unfoldable pub handler :
      Kind → Payload → User → (room_id : Text) → Exec (Backend sql redis) (Unit {0})
  handler chat_message payload u room_id = handle_chat_message payload u room_id
  handler typing_start payload u room_id =
      start_typing out.settings room_id (Uuid.str u.id) u.username
  handler typing_stop payload u room_id = stop_typing room_id (Uuid.str u.id) u.username
  handler mark_read payload u room_id = handle_mark_read payload u room_id
  handler unknown payload u room_id = pure tt
