-- ===== src/Integrity/Endpoints.antt =====
-- The endpoints of app/api/v1/endpoints are safe.
use fastapi_realtime_chat.Prelude.{
  ℕ, ℤ, ◌≡◌, false, Option, none, some, List, [], ◌∷◌, arith, nat_eq, text_eq,
}
use fastapi_realtime_chat.Exec.{Error, value_error, err, Exec, pure, raise}
use fastapi_realtime_chat.Sql.{Sql}
use fastapi_realtime_chat.Redis.{Redis}
use fastapi_realtime_chat.Models.{User, ChatRoom, Fresh}
use fastapi_realtime_chat.Backend.{Backend, commit}
use fastapi_realtime_chat.Rooms.{RoomCreate, get_by_id, member_count}
use fastapi_realtime_chat.RoomService.{join_room}
use fastapi_realtime_chat.Schemas.{validated}
use fastapi_realtime_chat.Responses.{RoomResponse, room_response}
use fastapi_realtime_chat.Api.{
  register_error, login_error, refresh_error, join_error, leave_error, member_error, detail_error,
  except, create_room_endpoint, with_counts, list_rooms, my_rooms, join_room_endpoint, get_room,
  leave_room_endpoint, get_messages, mark_read_endpoint,
}
use fastapi_realtime_chat.Integrity.Safe.{
  miscounts, Safe, Safe-catch, Safe-bind, Safe-commit, safe_rules,
}
use fastapi_realtime_chat.Integrity.Rows.{Safe-get_by_id, Safe-member_count}
use fastapi_realtime_chat.Integrity.MessageRows.{row_rules}
use fastapi_realtime_chat.Integrity.Services.{
  Safe-create_room, Safe-get_room_detail, Safe-join_room, Safe-leave_room, Safe-get_room_history,
  Safe-mark_messages_read, Safe-get_online_users, Safe-register, Safe-get_current_user, Safe-login,
  Safe-refresh,
}

-- No `except` clause turns its exception into one of the queries'.
abbrev pub Translates : (Error → Error) → Type 1
Translates f =
    (A : Type 0) (e : Error)
    → miscounts {A = A} (err e) ≡ false
    → miscounts {A = A} (err (f e)) ≡ false

pub register_error-Translates : Translates register_error
register_error-Translates A e h = ground arith

pub login_error-Translates : Translates login_error
login_error-Translates A e h = ground arith

pub refresh_error-Translates : Translates refresh_error
refresh_error-Translates A e h = ground arith

pub join_error-Translates : Translates join_error
join_error-Translates A e h = ground arith

pub leave_error-Translates : Translates leave_error
leave_error-Translates A e h = ground arith

pub member_error-Translates : Translates member_error
member_error-Translates A e h = ground arith

pub detail_error-Translates : Translates detail_error
detail_error-Translates A e h = ground arith

module _ {sql : Sql} {redis : Redis} where
  pub Safe-except :
      {A : Type 0} (f : Error → Error) (m : Exec (Backend sql redis) A)
      → Translates f
      → Safe m
      → Safe (except f m)
  Safe-except {A} f m h k = Safe-catch f m (h A) k

  pub Safe-validated :
      {R A : Type 0} (o : Option R) (endpoint : R → Exec (Backend sql redis) A)
      → ((body : R) → Safe (endpoint body))
      → Safe (validated o endpoint)
  Safe-validated none endpoint k = search safe_rules
  Safe-validated (some body) endpoint k = k body

  pub Safe-shown :
      (found : Option ChatRoom) (n : ℕ)
      → Safe {sql = sql} {redis = redis}
          (elim found as (λ _. Exec (Backend sql redis) RoomResponse) [
            | none ↦ raise value_error
            | some room ↦ pure (room_response room n)
          ])
  Safe-shown none n = search safe_rules
  Safe-shown (some room) n = search safe_rules

pub ruleset endpoint_rules = (
  safe_rules, row_rules, Safe-except, Safe-validated, Safe-shown, register_error-Translates,
  login_error-Translates, refresh_error-Translates, join_error-Translates, leave_error-Translates,
  member_error-Translates, detail_error-Translates, Safe-create_room, Safe-get_room_detail,
  Safe-join_room, Safe-leave_room, Safe-get_room_history, Safe-mark_messages_read,
  Safe-get_online_users, Safe-register, Safe-get_current_user, Safe-login, Safe-refresh,
)

module _ {sql : Sql} {redis : Redis} where
  pub Safe-create_room_endpoint :
      (f₁ f₂ : Fresh) (request : RoomCreate) (u : User)
      → Safe {sql = sql} {redis = redis} (create_room_endpoint f₁ f₂ request u)
  unfolding create_room_endpoint
  Safe-create_room_endpoint f₁ f₂ request u = search endpoint_rules depth 12

  pub Safe-with_counts :
      (rooms : List ChatRoom) → Safe {sql = sql} {redis = redis} (with_counts rooms)
  unfolding with_counts
  Safe-with_counts [] = search safe_rules
  Safe-with_counts (room ∷ rooms) =
      Safe-bind (member_count room.id) _ (Safe-member_count room.id) (λ n.
        Safe-bind (with_counts rooms) (λ rest. pure (room_response room n ∷ rest))
          (Safe-with_counts rooms) (λ rest. search safe_rules))

  pub Safe-list_rooms :
      (limit offset : ℤ) → Safe {sql = sql} {redis = redis} (list_rooms limit offset)
  unfolding list_rooms
  Safe-list_rooms limit offset = search (safe_rules, row_rules, Safe-with_counts)

  pub Safe-my_rooms : (u : User) → Safe {sql = sql} {redis = redis} (my_rooms u)
  unfolding my_rooms
  Safe-my_rooms u = search (safe_rules, row_rules, Safe-with_counts)

  pub Safe-join_room_endpoint :
      (fresh : Fresh) (r : ℕ) (u : User)
      → Safe {sql = sql} {redis = redis} (join_room_endpoint fresh r u)
  unfolding join_room_endpoint
  Safe-join_room_endpoint fresh r u =
      let joins : Safe (except join_error (join_room fresh r u)) = search endpoint_rules in
      Safe-bind _ _ joins (λ member. Safe-bind commit _ Safe-commit (λ done.
        Safe-bind (get_by_id r) _ (Safe-get_by_id r)
          (λ found. Safe-bind (member_count r) _ (Safe-member_count r) (λ n. Safe-shown found n))))

  pub Safe-get_room : (r : ℕ) (u : User) → Safe {sql = sql} {redis = redis} (get_room r u)
  unfolding get_room
  Safe-get_room r u = search endpoint_rules depth 12

  pub Safe-leave_room_endpoint :
      (r : ℕ) (u : User) → Safe {sql = sql} {redis = redis} (leave_room_endpoint r u)
  unfolding leave_room_endpoint
  Safe-leave_room_endpoint r u = search endpoint_rules depth 12

  pub Safe-get_messages :
      (r page size : ℕ) (u : User) → Safe {sql = sql} {redis = redis} (get_messages r page size u)
  unfolding get_messages
  Safe-get_messages r page size u = search endpoint_rules depth 12

  pub Safe-mark_read_endpoint :
      (fresh : ℕ → Fresh) (r : ℕ) (ids : List ℕ) (u : User)
      → Safe {sql = sql} {redis = redis} (mark_read_endpoint fresh r ids u)
  unfolding mark_read_endpoint
  Safe-mark_read_endpoint fresh r ids u = search endpoint_rules depth 12
