-- ===== src/Integrity/Services.antt =====
-- The services of app/services and the dependencies of app/dependencies/auth.py are safe.
use fastapi_realtime_chat.Prelude.{
  ℕ, ◌≡◌, refl, false, Option, none, some, List, arith, Text, nat_eq, text_eq,
}
use fastapi_realtime_chat.Exec.{Result, ok, err}
use fastapi_realtime_chat.Sql.{Sql}
use fastapi_realtime_chat.Redis.{Redis}
use fastapi_realtime_chat.Models.{User, ChatRoom, RoomMember, Fresh}
use fastapi_realtime_chat.Rooms.{RoomCreate, is_member, get_with_members}
use fastapi_realtime_chat.RoomService.{
  create_room, require_room, require_detail, get_room_detail, join_room, leave_room,
}
use fastapi_realtime_chat.Chat.{require_member, send_message, get_room_history, mark_messages_read}
use fastapi_realtime_chat.Presence.{
  TtlSettings, set_online, set_offline, refresh_presence, get_online_users, start_typing,
  stop_typing,
}
use fastapi_realtime_chat.Security.{Crypto, TokenSettings}
use fastapi_realtime_chat.Auth.{
  TokenDraws, parsed, active_user, verified, readable, token_user_id, register, issue_tokens, login,
  refresh, get_current_user,
}
use fastapi_realtime_chat.Integrity.Safe.{miscounts, Safe, safe_rules}
use fastapi_realtime_chat.Integrity.MessageRows.{row_rules}

module _ {sql : Sql} {redis : Redis} where
  Safe-is_member : (r u : ℕ) → Safe {sql = sql} {redis = redis} (is_member r u)
  unfolding is_member
  Safe-is_member r u = search (safe_rules, row_rules)

  Safe-require_room : (o : Option ChatRoom) → Safe {sql = sql} {redis = redis} (require_room o)
  Safe-require_room none = search safe_rules
  Safe-require_room (some room) = search safe_rules

  Safe-require_detail :
      (o : Option (ChatRoom × List (RoomMember × Option User)))
      → Safe {sql = sql} {redis = redis} (require_detail o)
  Safe-require_detail none = search safe_rules
  Safe-require_detail (some room) = search safe_rules

  pub Safe-create_room :
      (f₁ f₂ : Fresh) (request : RoomCreate) (owner : User)
      → Safe {sql = sql} {redis = redis} (create_room f₁ f₂ request owner)
  unfolding create_room
  Safe-create_room f₁ f₂ request owner = search (safe_rules, row_rules)

  Safe-get_with_members : (r : ℕ) → Safe {sql = sql} {redis = redis} (get_with_members r)
  unfolding get_with_members
  Safe-get_with_members r = search (safe_rules, row_rules)

  pub Safe-get_room_detail : (r u : ℕ) → Safe {sql = sql} {redis = redis} (get_room_detail r u)
  unfolding get_room_detail
  Safe-get_room_detail r u =
      search (safe_rules, Safe-is_member, Safe-get_with_members, Safe-require_detail) depth 12

  pub Safe-join_room :
      (fresh : Fresh) (r : ℕ) (u : User) → Safe {sql = sql} {redis = redis} (join_room fresh r u)
  unfolding join_room
  Safe-join_room fresh r u =
      search (safe_rules, row_rules, Safe-is_member, Safe-require_room) depth 14

  pub Safe-leave_room : (r u : ℕ) → Safe {sql = sql} {redis = redis} (leave_room r u)
  unfolding leave_room
  Safe-leave_room r u = search (safe_rules, row_rules, Safe-is_member, Safe-require_room) depth 14

  Safe-require_member : (r u : ℕ) → Safe {sql = sql} {redis = redis} (require_member r u)
  unfolding require_member
  Safe-require_member r u = search (safe_rules, Safe-is_member)

  pub Safe-send_message :
      (fresh : Fresh) (r u : ℕ) (c i : Option Text)
      → Safe {sql = sql} {redis = redis} (send_message fresh r u c i)
  unfolding send_message
  Safe-send_message fresh r u c i = search (safe_rules, row_rules, Safe-require_member) depth 12

  pub Safe-get_room_history :
      (r u page size : ℕ) → Safe {sql = sql} {redis = redis} (get_room_history r u page size)
  unfolding get_room_history
  Safe-get_room_history r u page size = search (safe_rules, row_rules, Safe-require_member) depth 12

  pub Safe-mark_messages_read :
      (fresh : ℕ → Fresh) (r u : ℕ) (ids : List ℕ)
      → Safe {sql = sql} {redis = redis} (mark_messages_read fresh r u ids)
  unfolding mark_messages_read
  Safe-mark_messages_read fresh r u ids =
      search (safe_rules, row_rules, Safe-require_member) depth 12

  pub Safe-set_online :
      (settings : TtlSettings) (u name : Text)
      → Safe {sql = sql} {redis = redis} (set_online settings u name)
  unfolding set_online
  Safe-set_online settings u name = search safe_rules

  pub Safe-refresh_presence :
      (settings : TtlSettings) (u name : Text)
      → Safe {sql = sql} {redis = redis} (refresh_presence settings u name)
  unfolding refresh_presence
  Safe-refresh_presence settings u name = search safe_rules

  pub Safe-set_offline : (u name : Text) → Safe {sql = sql} {redis = redis} (set_offline u name)
  unfolding set_offline
  Safe-set_offline u name = search safe_rules

  pub Safe-get_online_users : Safe (get_online_users {sql = sql} {redis = redis})
  unfolding get_online_users
  Safe-get_online_users = search safe_rules

  pub Safe-start_typing :
      (settings : TtlSettings) (r u name : Text)
      → Safe {sql = sql} {redis = redis} (start_typing settings r u name)
  unfolding start_typing
  Safe-start_typing settings r u name = search safe_rules

  pub Safe-stop_typing : (r u name : Text) → Safe {sql = sql} {redis = redis} (stop_typing r u name)
  unfolding stop_typing
  Safe-stop_typing r u name = search safe_rules

verified-counts :
    (crypto : Crypto) (password : Text) (found : Option User)
    → miscounts (verified crypto password found) ≡ false
verified-counts crypto password none = refl
verified-counts crypto password (some u) = ground arith

active-counts : (found : Option User) → miscounts (active_user found) ≡ false
active-counts none = refl
active-counts (some u) = ground arith

readable-counts : (r : Result Text) → miscounts (readable r) ≡ false
readable-counts (ok sub) = refl
readable-counts (err e) = refl

parsed-counts : (t : Text) → miscounts (parsed t) ≡ false
parsed-counts t = ground arith

token_user_id-counts :
    (crypto : Crypto) (now : ℕ) (token : Text) → miscounts (token_user_id crypto now token) ≡ false
token_user_id-counts crypto now token = ground arith

ruleset result_rules =
    (verified-counts, active-counts, readable-counts, parsed-counts, token_user_id-counts)

module _ {sql : Sql} {redis : Redis} (crypto : Crypto) where
  pub Safe-register :
      (fresh : Fresh) (salt : ℕ) (username email password : Text) (display_name : Option Text)
      → Safe {sql = sql} {redis = redis}
          (register crypto fresh salt username email password display_name)
  unfolding register
  Safe-register fresh salt username email password display_name =
      search (safe_rules, row_rules) depth 12

  pub Safe-get_current_user :
      (now : ℕ) (token : Text)
      → Safe {sql = sql} {redis = redis} (get_current_user crypto now token)
  unfolding get_current_user
  Safe-get_current_user now token = search (safe_rules, row_rules, result_rules) depth 12

  module _ (settings : TokenSettings) (now : ℕ) (draws : TokenDraws) where
    Safe-issue_tokens :
        (u : ℕ) → Safe {sql = sql} {redis = redis} (issue_tokens crypto settings now draws u)
    unfolding issue_tokens
    Safe-issue_tokens u = search (safe_rules, row_rules)

    pub Safe-login :
        (username password : Text)
        → Safe {sql = sql} {redis = redis} (login crypto settings now draws username password)
    unfolding login
    Safe-login username password =
        search (safe_rules, row_rules, result_rules, Safe-issue_tokens) depth 12

    pub Safe-refresh :
        (token : Text) → Safe {sql = sql} {redis = redis} (refresh crypto settings now draws token)
    unfolding refresh
    Safe-refresh token = search (safe_rules, row_rules, result_rules, Safe-issue_tokens) depth 16
