-- ===== src/Integrity/Whole.antt =====
-- Every request keeps the tables intact, and meets no query that finds two rows for one.
use fastapi_realtime_chat.Prelude.{ℕ, ℤ, Bool, List, Text, nat_eq, text_eq}
use fastapi_realtime_chat.Exec.{Result, ok, err, Exec, pure, raise, handled, ◌>>=◌}
use fastapi_realtime_chat.Sql.{Sql}
use fastapi_realtime_chat.Redis.{Redis}
use fastapi_realtime_chat.Models.{User, Fresh}
use fastapi_realtime_chat.Backend.{Backend, commit, rollback}
use fastapi_realtime_chat.Rooms.{RoomCreate}
use fastapi_realtime_chat.Notifications.{get_notifications, unread_count_endpoint, read_all}
use fastapi_realtime_chat.Schemas.{UserRegister, post_register, post_room, get_history, post_read}
use fastapi_realtime_chat.Api.{
  get_db, get_me, get_online, register_endpoint, login_endpoint, refresh_endpoint,
}
use fastapi_realtime_chat.Requests.{Request, Given, Draws, endpoint_of, perform, authenticated}
use fastapi_realtime_chat.Requests as R
use fastapi_realtime_chat.Integrity.Safe.{Good, Safe, Safe-bind, Safe-rollback, safe_rules}
use fastapi_realtime_chat.Integrity.MessageRows.{row_rules}
use fastapi_realtime_chat.Integrity.Services.{Safe-get_current_user}
use fastapi_realtime_chat.Integrity.Endpoints.{
  endpoint_rules, Safe-create_room_endpoint, Safe-list_rooms, Safe-my_rooms,
  Safe-join_room_endpoint, Safe-get_room, Safe-leave_room_endpoint, Safe-get_messages,
  Safe-mark_read_endpoint,
}

module _ {sql : Sql} {redis : Redis} where
  Safe-get_me : (u : User) → Safe {sql = sql} {redis = redis} (get_me u)
  unfolding get_me
  Safe-get_me u = search safe_rules

  Safe-get_online : Safe (get_online {sql = sql} {redis = redis})
  unfolding get_online
  Safe-get_online = search endpoint_rules

  Safe-get_notifications :
      (unread_only : Bool) (limit : ℤ) (u : User)
      → Safe {sql = sql} {redis = redis} (get_notifications unread_only limit u)
  unfolding get_notifications
  Safe-get_notifications unread_only limit u = search (safe_rules, row_rules)

  Safe-unread_count_endpoint :
      (u : User) → Safe {sql = sql} {redis = redis} (unread_count_endpoint u)
  unfolding unread_count_endpoint
  Safe-unread_count_endpoint u = search (safe_rules, row_rules)

  Safe-read_all : (u : User) → Safe {sql = sql} {redis = redis} (read_all u)
  unfolding read_all
  Safe-read_all u = search (safe_rules, row_rules)

  Safe-post_room :
      (f₁ f₂ : Fresh) (body : RoomCreate) (u : User)
      → Safe {sql = sql} {redis = redis} (post_room f₁ f₂ body u)
  unfolding post_room
  Safe-post_room f₁ f₂ body u = search (endpoint_rules, Safe-create_room_endpoint)

  Safe-get_history :
      (r page size : ℕ) (u : User) → Safe {sql = sql} {redis = redis} (get_history r page size u)
  unfolding get_history
  Safe-get_history r page size u = search (safe_rules, Safe-get_messages)

  Safe-post_read :
      (fresh : ℕ → Fresh) (r : ℕ) (ids : List ℕ) (u : User)
      → Safe {sql = sql} {redis = redis} (post_read fresh r ids u)
  unfolding post_read
  Safe-post_read fresh r ids u = search (endpoint_rules, Safe-mark_read_endpoint)

  -- A commit, or a rollback to tables that are intact too.
  rolled_back :
      {A : Type 0} (r : Result A) (s : Backend sql redis)
      → Good (r, s)
      → Good (handled r (λ e. rollback >>= λ done. raise e) s)
  rolled_back (ok a) s good = good
  rolled_back (err e) s good = ((Safe-rollback.at s good.0).0, good.1)

  Safe-get_db :
      {A : Type 0} (endpoint : Exec (Backend sql redis) A) → Safe endpoint → Safe (get_db endpoint)
  unfolding get_db
  Safe-get_db endpoint k = record {
    at = λ s h.
        let commits : Safe (endpoint >>= λ answer. commit >>= λ done. pure answer) =
          Safe-bind endpoint _ k (λ answer. search safe_rules) in
        rolled_back _ _ (commits.at s h);
  }

module _ {sql : Sql} {redis : Redis} (given : Given) (draws : Draws) where
  Safe-authenticated :
      {A : Type 0} (token : Text) (endpoint : User → Exec (Backend sql redis) A)
      → ((u : User) → Safe (endpoint u))
      → Safe (authenticated given draws token endpoint)
  Safe-authenticated token endpoint k = search (safe_rules, Safe-get_current_user, k)

  Safe-post_register :
      (body : UserRegister)
      → Safe {sql = sql} {redis = redis}
          (post_register given.email_of given.crypto (draws.fresh 0) draws.salt body)
  unfolding post_register register_endpoint
  Safe-post_register body = search endpoint_rules depth 12

  Safe-login_endpoint :
      (username password : Text)
      → Safe {sql = sql} {redis = redis}
          (login_endpoint given.crypto given.settings draws.now draws.tokens username password)
  unfolding login_endpoint
  Safe-login_endpoint username password = search endpoint_rules depth 12

  Safe-refresh_endpoint :
      (token : Text)
      → Safe {sql = sql} {redis = redis}
          (refresh_endpoint given.crypto given.settings draws.now draws.tokens token)
  unfolding refresh_endpoint
  Safe-refresh_endpoint token = search endpoint_rules depth 12

  Safe-endpoint_of :
      (request : Request) → Safe {sql = sql} {redis = redis} (endpoint_of given draws request)
  unfolding endpoint_of
  Safe-endpoint_of (R.get_me token) = search (Safe-authenticated, Safe-get_me)
  Safe-endpoint_of (R.get_online token) = search (Safe-authenticated, Safe-get_online)
  Safe-endpoint_of (R.create_room token body) = search (Safe-authenticated, Safe-post_room)
  Safe-endpoint_of (R.list_rooms token limit offset) = search (Safe-authenticated, Safe-list_rooms)
  Safe-endpoint_of (R.my_rooms token) = search (Safe-authenticated, Safe-my_rooms)
  Safe-endpoint_of (R.get_room token r) = search (Safe-authenticated, Safe-get_room)
  Safe-endpoint_of (R.join_room token r) = search (Safe-authenticated, Safe-join_room_endpoint)
  Safe-endpoint_of (R.leave_room token r) = search (Safe-authenticated, Safe-leave_room_endpoint)
  Safe-endpoint_of (R.get_messages token r page size) =
      search (Safe-authenticated, Safe-get_history)
  Safe-endpoint_of (R.mark_read token r ids) = search (Safe-authenticated, Safe-post_read)
  Safe-endpoint_of (R.get_notifications token unread_only limit) =
      search (Safe-authenticated, Safe-get_notifications)
  Safe-endpoint_of (R.unread_count token) = search (Safe-authenticated, Safe-unread_count_endpoint)
  Safe-endpoint_of (R.mark_all_read token) = search (Safe-authenticated, Safe-read_all)
  Safe-endpoint_of (R.register body) = search (safe_rules, Safe-post_register)
  Safe-endpoint_of (R.login username password) = search (safe_rules, Safe-login_endpoint)
  Safe-endpoint_of (R.refresh token) = search (safe_rules, Safe-refresh_endpoint)

  pub Safe-perform :
      (request : Request) → Safe {sql = sql} {redis = redis} (perform given draws request)
  unfolding perform
  Safe-perform request = Safe-get_db (endpoint_of given draws request) (Safe-endpoint_of request)
