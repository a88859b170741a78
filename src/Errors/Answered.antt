-- ===== src/Errors/Answered.antt =====
-- What a request ends with, if not with a value.
use fastapi_realtime_chat.Prelude.{◌≡◌, ◌≢◌, ◌∙◌, ap, refl, true, arith, Text, nat_eq, text_eq}
use fastapi_realtime_chat.Exec.{
  Error, wrong_row_count, Result, ok, err, Exec, pure, raise, handled, ◌>>=◌,
}
use fastapi_realtime_chat.Sql.{Sql}
use fastapi_realtime_chat.Redis.{Redis}
use fastapi_realtime_chat.Models.{User}
use fastapi_realtime_chat.Backend.{Backend, commit, rollback}
use fastapi_realtime_chat.Schemas.{UserRegister, post_register}
use fastapi_realtime_chat.Api.{get_db, register_endpoint, login_endpoint, refresh_endpoint}
use fastapi_realtime_chat.Handlers.{Outside}
use fastapi_realtime_chat.Server.{Server}
use fastapi_realtime_chat.Requests.{Request, Given, Draws, endpoint_of, perform, authenticated}
use fastapi_realtime_chat.Requests as R
use fastapi_realtime_chat.Integrity.{IsIntact}
use fastapi_realtime_chat.Integrity.History.{History, History-IsIntact}
use fastapi_realtime_chat.Errors.{
  uncaught, among, Among, Yields, Raises, Raises-bind, nothing_else, raise_rules,
}
use fastapi_realtime_chat.Errors.Services.{Raises-get_current_user}
use fastapi_realtime_chat.Errors.Endpoints.{
  answer_rules, Raises-list_rooms, Raises-my_rooms, Raises-join_room_endpoint, Raises-get_room,
  Raises-leave_room_endpoint, Raises-get_me, Raises-get_online, Raises-get_notifications,
  Raises-unread_count_endpoint, Raises-read_all, Raises-post_room, Raises-get_history,
  Raises-post_read,
}

module _ {sql : Sql} {redis : Redis} where
  rolled_back :
      {A : Type 0} (r : Result A) (s : Backend sql redis)
      → Among nothing_else r
      → Yields nothing_else (handled r (λ e. rollback >>= λ done. raise e) s)
  rolled_back (ok a) s h = record { at = refl }
  rolled_back (err e) s h = record { at = h.at }

  Raises-get_db :
      {A : Type 0} (endpoint : Exec (Backend sql redis) A)
      → Raises nothing_else endpoint
      → Raises nothing_else (get_db endpoint)
  unfolding get_db
  Raises-get_db endpoint k = record {
    at = λ s.
        let commits : Raises nothing_else (endpoint >>= λ answer. commit >>= λ done. pure answer) =
          Raises-bind endpoint _ k (λ answer. search raise_rules) in
        rolled_back _ _ (record { at = (commits.at s).at });
  }

module _ {sql : Sql} {redis : Redis} (given : Given) (draws : Draws) where
  Raises-authenticated :
      {A : Type 0} (token : Text) (endpoint : User → Exec (Backend sql redis) A)
      → ((u : User) → Raises {S = Backend sql redis} nothing_else (endpoint u))
      → Raises {S = Backend sql redis} nothing_else (authenticated given draws token endpoint)
  Raises-authenticated token endpoint k = search (raise_rules, Raises-get_current_user, k)

  Raises-post_register :
      (body : UserRegister)
      → Raises {S = Backend sql redis} nothing_else
          (post_register given.email_of given.crypto (draws.fresh 0) draws.salt body)
  unfolding post_register register_endpoint
  Raises-post_register body = search answer_rules depth 12

  Raises-login_endpoint :
      (username password : Text)
      → Raises {S = Backend sql redis} nothing_else
          (login_endpoint given.crypto given.settings draws.now draws.tokens username password)
  unfolding login_endpoint
  Raises-login_endpoint username password = search answer_rules depth 12

  Raises-refresh_endpoint :
      (token : Text)
      → Raises {S = Backend sql redis} nothing_else
          (refresh_endpoint given.crypto given.settings draws.now draws.tokens token)
  unfolding refresh_endpoint
  Raises-refresh_endpoint token = search answer_rules depth 12

  Raises-endpoint_of :
      (request : Request)
      → Raises {S = Backend sql redis} nothing_else (endpoint_of given draws request)
  unfolding endpoint_of
  Raises-endpoint_of (R.get_me token) = search (Raises-authenticated, Raises-get_me)
  Raises-endpoint_of (R.get_online token) = search (Raises-authenticated, Raises-get_online)
  Raises-endpoint_of (R.create_room token body) = search (Raises-authenticated, Raises-post_room)
  Raises-endpoint_of (R.list_rooms token limit offset) =
      search (Raises-authenticated, Raises-list_rooms)
  Raises-endpoint_of (R.my_rooms token) = search (Raises-authenticated, Raises-my_rooms)
  Raises-endpoint_of (R.get_room token r) = search (Raises-authenticated, Raises-get_room)
  Raises-endpoint_of (R.join_room token r) =
      search (Raises-authenticated, Raises-join_room_endpoint)
  Raises-endpoint_of (R.leave_room token r) =
      search (Raises-authenticated, Raises-leave_room_endpoint)
  Raises-endpoint_of (R.get_messages token r page size) =
      search (Raises-authenticated, Raises-get_history)
  Raises-endpoint_of (R.mark_read token r ids) = search (Raises-authenticated, Raises-post_read)
  Raises-endpoint_of (R.get_notifications token unread_only limit) =
      search (Raises-authenticated, Raises-get_notifications)
  Raises-endpoint_of (R.unread_count token) =
      search (Raises-authenticated, Raises-unread_count_endpoint)
  Raises-endpoint_of (R.mark_all_read token) = search (Raises-authenticated, Raises-read_all)
  Raises-endpoint_of (R.register body) = search (raise_rules, Raises-post_register)
  Raises-endpoint_of (R.login username password) = search (raise_rules, Raises-login_endpoint)
  Raises-endpoint_of (R.refresh token) = search (raise_rules, Raises-refresh_endpoint)

  Raises-perform :
      (request : Request)
      → Raises {S = Backend sql redis} nothing_else (perform given draws request)
  unfolding perform
  Raises-perform request =
      Raises-get_db (endpoint_of given draws request) (Raises-endpoint_of request)

error-uncaught :
    {A : Type 0} (r : Result A) (e : Error)
    → among nothing_else r ≡ true
    → r ≡ err e
    → uncaught e ≡ true
error-uncaught (ok a) e h same = absurd (ground arith)
error-uncaught (err x) e h same = ground arith

module _ {sql : Sql} {redis : Redis} (out : Outside) (given : Given) {s t : Server sql redis} where
  -- From intact and committed tables, whatever has happened to a process: a request that ends with
  -- no value ends with an HTTP exception, or with an error of the database, of Redis or of a value
  -- that does not fit, which no endpoint catches. No exception that a service raises for its
  -- endpoint escapes, and no query for one row finds two.
  pub request_answered :
      History out given s t
      → IsIntact sql s.process.backend.db
      → s.process.backend.db ≡ s.process.backend.committed
      → (draws : Draws) (r : Request) (e : Error)
      → (perform given draws r t.process.backend).0 ≡ err e
      → (uncaught e ≡ true) × (e ≢ wrong_row_count)
  request_answered history intact committed draws r e raised =
      let (now_intact, none_open, counts) = History-IsIntact out given history intact committed in
      (
        error-uncaught _ e ((Raises-perform given draws r).at t.process.backend).at raised,
        λ same. counts draws r (raised ∙ ap err same),
      )
