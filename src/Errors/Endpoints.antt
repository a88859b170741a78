-- ===== src/Errors/Endpoints.antt =====
-- The endpoints of app/api/v1/endpoints catch what the services raise for them.
use fastapi_realtime_chat.Prelude.{
  ℕ, ℤ, ◌≡◌, Bool, true, Option, none, some, List, [], ◌∷◌, arith, nat_eq, text_eq,
}
use fastapi_realtime_chat.Exec.{Error, value_error, Exec, pure, raise}
use fastapi_realtime_chat.Sql.{Sql}
use fastapi_realtime_chat.Redis.{Redis}
use fastapi_realtime_chat.Models.{User, ChatRoom, Fresh}
use fastapi_realtime_chat.Backend.{Backend, commit}
use fastapi_realtime_chat.Rooms.{RoomCreate, get_by_id, member_count}
use fastapi_realtime_chat.RoomService.{join_room}
use fastapi_realtime_chat.Notifications.{get_notifications, unread_count_endpoint, read_all}
use fastapi_realtime_chat.Schemas.{validated, post_room, get_history, post_read}
use fastapi_realtime_chat.Responses.{RoomResponse, room_response}
use fastapi_realtime_chat.Api.{
  register_error, login_error, refresh_error, join_error, leave_error, member_error, detail_error,
  except, create_room_endpoint, with_counts, list_rooms, my_rooms, join_room_endpoint, get_room,
  leave_room_endpoint, get_messages, mark_read_endpoint, get_me, get_online,
}
use fastapi_realtime_chat.Errors.{
  uncaught, Raises, Raises-bind, Raises-commit, Raises-catch, nothing_else, turned, raise_rules,
}
use fastapi_realtime_chat.Errors.Rows.{query_rules, Raises-get_by_id, Raises-member_count}
use fastapi_realtime_chat.Errors.Services.{
  Raises-create_room, Raises-get_room_detail, Raises-join_room, Raises-leave_room,
  Raises-get_room_history, Raises-mark_messages_read, Raises-get_online_users, Raises-register,
  Raises-get_current_user, Raises-login, Raises-refresh,
}

-- The clauses let pass what they are not for.
pub record Passes (f : Error → Error) : Type 0 where
  pub at : (e : Error) → uncaught e ≡ true → uncaught (f e) ≡ true

pub register_error-Passes : Passes register_error
register_error-Passes = record { at = λ e h. ground arith }

pub login_error-Passes : Passes login_error
login_error-Passes = record { at = λ e h. ground arith }

pub refresh_error-Passes : Passes refresh_error
refresh_error-Passes = record { at = λ e h. ground arith }

pub join_error-Passes : Passes join_error
join_error-Passes = record { at = λ e h. ground arith }

pub leave_error-Passes : Passes leave_error
leave_error-Passes = record { at = λ e h. ground arith }

pub member_error-Passes : Passes member_error
member_error-Passes = record { at = λ e h. ground arith }

pub detail_error-Passes : Passes detail_error
detail_error-Passes = record { at = λ e h. ground arith }

module _ {sql : Sql} {redis : Redis} where
  pub Raises-except :
      {A : Type 0} (f : Error → Error) (m : Exec (Backend sql redis) A)
      → Passes f
      → Raises (turned f) m
      → Raises nothing_else (except f m)
  Raises-except f m passes k = Raises-catch f m (λ e h. ground (arith, passes.at e)) k

  pub Raises-validated :
      {R A : Type 0} (o : Option R) (endpoint : R → Exec (Backend sql redis) A)
      → ((body : R) → Raises nothing_else (endpoint body))
      → Raises nothing_else (validated o endpoint)
  Raises-validated none endpoint k = search raise_rules
  Raises-validated (some body) endpoint k = k body

  Raises-shown :
      (found : Option ChatRoom) (n : ℕ)
      → Raises {S = Backend sql redis} nothing_else
          (elim found as (λ _. Exec (Backend sql redis) RoomResponse) [
            | none ↦ raise value_error
            | some room ↦ pure (room_response room n)
          ])
  Raises-shown none n = search raise_rules
  Raises-shown (some room) n = search raise_rules

pub ruleset answer_rules = (
  raise_rules, query_rules, Raises-except, Raises-validated, register_error-Passes,
  login_error-Passes, refresh_error-Passes, join_error-Passes, leave_error-Passes,
  member_error-Passes, detail_error-Passes, Raises-create_room, Raises-get_room_detail,
  Raises-join_room, Raises-leave_room, Raises-get_room_history, Raises-mark_messages_read,
  Raises-get_online_users, Raises-register, Raises-get_current_user, Raises-login, Raises-refresh,
)

module _ {sql : Sql} {redis : Redis} where
  pub Raises-create_room_endpoint :
      (f₁ f₂ : Fresh) (request : RoomCreate) (u : User)
      → Raises {S = Backend sql redis} nothing_else (create_room_endpoint f₁ f₂ request u)
  unfolding create_room_endpoint
  Raises-create_room_endpoint f₁ f₂ request u = search answer_rules depth 12

  pub Raises-with_counts :
      (rooms : List ChatRoom) → Raises {S = Backend sql redis} nothing_else (with_counts rooms)
  unfolding with_counts
  Raises-with_counts [] = search raise_rules
  Raises-with_counts (room ∷ rooms) =
      Raises-bind (member_count room.id) _ (Raises-member_count room.id) (λ n.
        Raises-bind (with_counts rooms) (λ rest. pure (room_response room n ∷ rest))
          (Raises-with_counts rooms) (λ rest. search raise_rules))

  pub Raises-list_rooms :
      (limit offset : ℤ) → Raises {S = Backend sql redis} nothing_else (list_rooms limit offset)
  unfolding list_rooms
  Raises-list_rooms limit offset = search (raise_rules, query_rules, Raises-with_counts)

  pub Raises-my_rooms : (u : User) → Raises {S = Backend sql redis} nothing_else (my_rooms u)
  unfolding my_rooms
  Raises-my_rooms u = search (raise_rules, query_rules, Raises-with_counts)

  pub Raises-join_room_endpoint :
      (fresh : Fresh) (r : ℕ) (u : User)
      → Raises {S = Backend sql redis} nothing_else (join_room_endpoint fresh r u)
  unfolding join_room_endpoint
  Raises-join_room_endpoint fresh r u =
      let joins : Raises {S = Backend sql redis} nothing_else
          (except join_error (join_room fresh r u)) =
        search answer_rules in
      Raises-bind _ _ joins (λ member. Raises-bind commit _ Raises-commit (λ done.
        Raises-bind (get_by_id r) _ (Raises-get_by_id r) (λ found.
          Raises-bind (member_count r) _ (Raises-member_count r) (λ n. Raises-shown found n))))

  pub Raises-get_room :
      (r : ℕ) (u : User) → Raises {S = Backend sql redis} nothing_else (get_room r u)
  unfolding get_room
  Raises-get_room r u = search answer_rules depth 12

  pub Raises-leave_room_endpoint :
      (r : ℕ) (u : User) → Raises {S = Backend sql redis} nothing_else (leave_room_endpoint r u)
  unfolding leave_room_endpoint
  Raises-leave_room_endpoint r u = search answer_rules depth 12

  pub Raises-get_messages :
      (r page size : ℕ) (u : User)
      → Raises {S = Backend sql redis} nothing_else (get_messages r page size u)
  unfolding get_messages
  Raises-get_messages r page size u = search answer_rules depth 12

  pub Raises-mark_read_endpoint :
      (fresh : ℕ → Fresh) (r : ℕ) (ids : List ℕ) (u : User)
      → Raises {S = Backend sql redis} nothing_else (mark_read_endpoint fresh r ids u)
  unfolding mark_read_endpoint
  Raises-mark_read_endpoint fresh r ids u = search answer_rules depth 12

  pub Raises-get_me : (u : User) → Raises {S = Backend sql redis} nothing_else (get_me u)
  unfolding get_me
  Raises-get_me u = search raise_rules

  pub Raises-get_online : Raises {S = Backend sql redis} nothing_else (get_online)
  unfolding get_online
  Raises-get_online = search answer_rules

  pub Raises-get_notifications :
      (unread_only : Bool) (limit : ℤ) (u : User)
      → Raises {S = Backend sql redis} nothing_else (get_notifications unread_only limit u)
  unfolding get_notifications
  Raises-get_notifications unread_only limit u = search (raise_rules, query_rules)

  pub Raises-unread_count_endpoint :
      (u : User) → Raises {S = Backend sql redis} nothing_else (unread_count_endpoint u)
  unfolding unread_count_endpoint
  Raises-unread_count_endpoint u = search (raise_rules, query_rules)

  pub Raises-read_all : (u : User) → Raises {S = Backend sql redis} nothing_else (read_all u)
  unfolding read_all
  Raises-read_all u = search (raise_rules, query_rules)

  pub Raises-post_room :
      (f₁ f₂ : Fresh) (body : RoomCreate) (u : User)
      → Raises {S = Backend sql redis} nothing_else (post_room f₁ f₂ body u)
  unfolding post_room
  Raises-post_room f₁ f₂ body u = search (answer_rules, Raises-create_room_endpoint)

  pub Raises-get_history :
      (r page size : ℕ) (u : User)
      → Raises {S = Backend sql redis} nothing_else (get_history r page size u)
  unfolding get_history
  Raises-get_history r page size u = search (raise_rules, Raises-get_messages)

  pub Raises-post_read :
      (fresh : ℕ → Fresh) (r : ℕ) (ids : List ℕ) (u : User)
      → Raises {S = Backend sql redis} nothing_else (post_read fresh r ids u)
  unfolding post_read
  Raises-post_read fresh r ids u = search (answer_rules, Raises-mark_read_endpoint)
