-- ===== src/Errors/Services.antt =====
-- The services of app/services raise what the endpoints that call them catch.
use fastapi_realtime_chat.Prelude.{
  ℕ, refl, Bool, Option, none, some, List, arith, Text, nat_eq, text_eq,
}
use fastapi_realtime_chat.Exec.{Error, Result, ok, err}
use fastapi_realtime_chat.Sql.{Sql}
use fastapi_realtime_chat.Redis.{Redis}
use fastapi_realtime_chat.Models.{User, ChatRoom, RoomMember, Fresh}
use fastapi_realtime_chat.Backend.{Backend}
use fastapi_realtime_chat.Rooms.{RoomCreate, is_member, get_with_members}
use fastapi_realtime_chat.RoomService.{
  create_room, join_room, leave_room, get_room_detail, require_room, require_detail,
}
use fastapi_realtime_chat.Chat.{require_member, get_room_history, mark_messages_read}
use fastapi_realtime_chat.Presence.{get_online_users}
use fastapi_realtime_chat.Security.{Crypto, TokenSettings}
use fastapi_realtime_chat.Auth.{
  TokenDraws, verified, active_user, readable, parsed, token_user_id, register, login, refresh,
  get_current_user, issue_tokens,
}
use fastapi_realtime_chat.Api.{
  register_error, login_error, refresh_error, join_error, leave_error, member_error, detail_error,
}
use fastapi_realtime_chat.Errors.{Among, Raises, turned, nothing_else, raise_rules}
use fastapi_realtime_chat.Errors.Rows.{query_rules}

module _ {sql : Sql} {redis : Redis} {others : Error → Bool} where
  Raises-is_member : (r u : ℕ) → Raises {S = Backend sql redis} others (is_member r u)
  unfolding is_member
  Raises-is_member r u = search (raise_rules, query_rules)

  pub Raises-create_room :
      (f₁ f₂ : Fresh) (request : RoomCreate) (owner : User)
      → Raises {S = Backend sql redis} others (create_room f₁ f₂ request owner)
  unfolding create_room
  Raises-create_room f₁ f₂ request owner = search (raise_rules, query_rules)

  Raises-get_with_members : (r : ℕ) → Raises {S = Backend sql redis} others (get_with_members r)
  unfolding get_with_members
  Raises-get_with_members r = search (raise_rules, query_rules)

  pub Raises-get_online_users : Raises {S = Backend sql redis} others get_online_users
  unfolding get_online_users
  Raises-get_online_users = search raise_rules

module _ {sql : Sql} {redis : Redis} where
  join_room-found :
      (o : Option ChatRoom) → Raises {S = Backend sql redis} (turned join_error) (require_room o)
  join_room-found none = search raise_rules
  join_room-found (some room) = search raise_rules

  leave_room-found :
      (o : Option ChatRoom) → Raises {S = Backend sql redis} (turned leave_error) (require_room o)
  leave_room-found none = search raise_rules
  leave_room-found (some room) = search raise_rules

  detail-found :
      (o : Option (ChatRoom × List (RoomMember × Option User)))
      → Raises {S = Backend sql redis} (turned detail_error) (require_detail o)
  detail-found none = search raise_rules
  detail-found (some room) = search raise_rules

  pub Raises-get_room_detail :
      (r u : ℕ) → Raises {S = Backend sql redis} (turned detail_error) (get_room_detail r u)
  unfolding get_room_detail
  Raises-get_room_detail r u =
      search (raise_rules, Raises-is_member, Raises-get_with_members, detail-found) depth 12

  pub Raises-join_room :
      (fresh : Fresh) (r : ℕ) (u : User)
      → Raises {S = Backend sql redis} (turned join_error) (join_room fresh r u)
  unfolding join_room
  Raises-join_room fresh r u =
      search (raise_rules, query_rules, Raises-is_member, join_room-found) depth 14

  pub Raises-leave_room :
      (r u : ℕ) → Raises {S = Backend sql redis} (turned leave_error) (leave_room r u)
  unfolding leave_room
  Raises-leave_room r u =
      search (raise_rules, query_rules, Raises-is_member, leave_room-found) depth 14

  Raises-require_member :
      (r u : ℕ) → Raises {S = Backend sql redis} (turned member_error) (require_member r u)
  unfolding require_member
  Raises-require_member r u = search (raise_rules, Raises-is_member)

  pub Raises-get_room_history :
      (r u page size : ℕ)
      → Raises {S = Backend sql redis} (turned member_error) (get_room_history r u page size)
  unfolding get_room_history
  Raises-get_room_history r u page size =
      search (raise_rules, query_rules, Raises-require_member) depth 12

  pub Raises-mark_messages_read :
      (fresh : ℕ → Fresh) (r u : ℕ) (ids : List ℕ)
      → Raises {S = Backend sql redis} (turned member_error) (mark_messages_read fresh r u ids)
  unfolding mark_messages_read
  Raises-mark_messages_read fresh r u ids =
      search (raise_rules, query_rules, Raises-require_member) depth 12

login-verified :
    (crypto : Crypto) (password : Text) (found : Option User)
    → Among (turned login_error) (verified crypto password found)
login-verified crypto password none = record { at = refl }
login-verified crypto password (some u) = record { at = ground arith }

active_user-Among : (found : Option User) → Among nothing_else (active_user found)
active_user-Among none = record { at = refl }
active_user-Among (some u) = record { at = ground arith }

refresh-readable : (r : Result Text) → Among (turned refresh_error) (readable r)
refresh-readable (ok sub) = record { at = refl }
refresh-readable (err e) = record { at = refl }

refresh-parsed : (t : Text) → Among (turned refresh_error) (parsed t)
refresh-parsed t = record { at = ground arith }

token_user_id-Among :
    (crypto : Crypto) (now : ℕ) (token : Text) → Among nothing_else (token_user_id crypto now token)
token_user_id-Among crypto now token = record { at = ground arith }

module _ {sql : Sql} {redis : Redis} (crypto : Crypto) where
  pub Raises-register :
      (fresh : Fresh) (salt : ℕ) (username email password : Text) (display_name : Option Text)
      → Raises {S = Backend sql redis}
          (turned register_error)
          (register crypto fresh salt username email password display_name)
  unfolding register
  Raises-register fresh salt username email password display_name =
      search (raise_rules, query_rules) depth 12

  pub Raises-get_current_user :
      (now : ℕ) (token : Text)
      → Raises {S = Backend sql redis} nothing_else (get_current_user crypto now token)
  unfolding get_current_user
  Raises-get_current_user now token =
      search (raise_rules, query_rules, active_user-Among, token_user_id-Among) depth 12

  module _ (settings : TokenSettings) (now : ℕ) (draws : TokenDraws) where
    Raises-issue_tokens :
        {others : Error → Bool} (u : ℕ)
        → Raises {S = Backend sql redis} others (issue_tokens crypto settings now draws u)
    unfolding issue_tokens
    Raises-issue_tokens u = search (raise_rules, query_rules)

    pub Raises-login :
        (username password : Text)
        → Raises {S = Backend sql redis}
            (turned login_error)
            (login crypto settings now draws username password)
    unfolding login
    Raises-login username password =
        search (raise_rules, query_rules, login-verified, Raises-issue_tokens) depth 12

    pub Raises-refresh :
        (token : Text)
        → Raises {S = Backend sql redis}
            (turned refresh_error)
            (refresh crypto settings now draws token)
    unfolding refresh
    Raises-refresh token =
        search (raise_rules, query_rules, refresh-readable, refresh-parsed, Raises-issue_tokens)
          depth 16
