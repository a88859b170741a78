-- ===== src/Api.antt =====
-- The HTTP endpoints that write or that turn errors into answers: app/api/v1/endpoints/auth.py,
-- rooms.py, messages.py and users.py there, and the session of a request, `get_db` of app/db/session.py.
pub mod Atomic
pub mod Race
pub mod NewRoom
pub mod Outsiders
use fastapi_realtime_chat.Prelude.{
  ℕ, ℤ, Option, none, some, List, [], ◌∷◌, Text, codes, nat_eq, text_eq, length,
}
use fastapi_realtime_chat.Exec.{
  Error, authentication_error, authorization_error, not_found_error, conflict_error,
  credentials_exception, forbidden_exception, not_found_exception, conflict_exception,
  bad_request_exception, Exec, pure, raise, catch, value_error, ◌>>=◌, ◌>>◌,
}
use fastapi_realtime_chat.Sql.{Sql}
use fastapi_realtime_chat.Redis.{Redis}
use fastapi_realtime_chat.Models.{User, ChatRoom, Fresh}
use fastapi_realtime_chat.Backend.{Backend, commit, rollback}
use fastapi_realtime_chat.Rooms.{
  RoomCreate, member_count, get_by_id, get_public_rooms, get_user_rooms,
}
use fastapi_realtime_chat.RoomService.{create_room, join_room, leave_room, get_room_detail}
use fastapi_realtime_chat.Presence.{OnlineUser, get_online_users}
use fastapi_realtime_chat.Chat.{PaginatedMessages, get_room_history, mark_messages_read}
use fastapi_realtime_chat.Responses.{
  RoomResponse, room_response, RoomDetail, UserResponse, user_response, members_public,
}
use fastapi_realtime_chat.Security.{Crypto, TokenSettings}
use fastapi_realtime_chat.Auth.{TokenPair, TokenDraws, register, login, refresh}

-- The `except` clauses of the endpoints.
abbrev pub register_error : Error → Error
register_error (conflict_error message) = conflict_exception message
register_error e = e

abbrev pub login_error : Error → Error
login_error (authentication_error message) = credentials_exception
login_error e = e

abbrev pub refresh_error : Error → Error
refresh_error (authentication_error message) = bad_request_exception message
refresh_error e = e

abbrev pub join_error : Error → Error
join_error (not_found_error message) = not_found_exception (codes "Room")
join_error (conflict_error message) = conflict_exception message
join_error (authorization_error message) = conflict_exception message
join_error e = e

abbrev pub leave_error : Error → Error
leave_error (not_found_error message) = not_found_exception (codes "Room")
leave_error (conflict_error message) = bad_request_exception message
leave_error e = e

abbrev pub member_error : Error → Error
member_error (authorization_error message) = forbidden_exception message
member_error e = e

abbrev pub detail_error : Error → Error
detail_error (not_found_error message) = not_found_exception (codes "Room")
detail_error (authorization_error message) = forbidden_exception message
detail_error e = e

module _ {sql : Sql} {redis : Redis} where
  -- `get_db` around an endpoint: a commit, or a rollback and the exception again.
  unfoldable pub get_db : {A : Type 0} → Exec (Backend sql redis) A → Exec (Backend sql redis) A
  get_db endpoint = catch (do answer ← endpoint; commit; pure answer) (λ e. do rollback; raise e)

  -- `try: m except …: raise f(…)`
  abbrev pub except :
      {A : Type 0} → (Error → Error) → Exec (Backend sql redis) A → Exec (Backend sql redis) A
  except f m = catch m (λ e. raise (f e))

  unfoldable pub create_room_endpoint :
      (room_fresh member_fresh : Fresh) → RoomCreate → User → Exec (Backend sql redis) RoomResponse
  create_room_endpoint room_fresh member_fresh request current_user = do
    room ← create_room room_fresh member_fresh request current_user
    count ← member_count room.id
    commit
    pure (room_response room count)

  -- `list_rooms` and `my_rooms`, from the rooms that the service gives.
  unfoldable pub with_counts : List ChatRoom → Exec (Backend sql redis) (List RoomResponse)
  with_counts [] = pure []
  with_counts (room ∷ rooms) = do
    count ← member_count room.id
    rest ← with_counts rooms
    pure (room_response room count ∷ rest)

  unfoldable pub list_rooms : (limit offset : ℤ) → Exec (Backend sql redis) (List RoomResponse)
  list_rooms limit offset = do rooms ← get_public_rooms limit offset; with_counts rooms

  unfoldable pub my_rooms : User → Exec (Backend sql redis) (List RoomResponse)
  my_rooms current_user = do rooms ← get_user_rooms current_user.id; with_counts rooms

  -- A room that is gone again is no valid answer: a `ValueError` of the schema.
  unfoldable pub join_room_endpoint :
      Fresh → (room_id : ℕ) → User → Exec (Backend sql redis) RoomResponse
  join_room_endpoint fresh room_id current_user = do
    except join_error (join_room fresh room_id current_user)
    commit
    found ← get_by_id room_id
    count ← member_count room_id
    elim found [ none ↦ raise value_error | some room ↦ pure (room_response room count) ]

  unfoldable pub get_room : (room_id : ℕ) → User → Exec (Backend sql redis) RoomDetail
  get_room room_id current_user = do
    (room, rows) ← except detail_error (get_room_detail room_id current_user.id)
    let members = members_public rows in
        pure (record { base = room_response room (length members); members = members })

  unfoldable pub leave_room_endpoint : (room_id : ℕ) → User → Exec (Backend sql redis) (Unit {0})
  leave_room_endpoint room_id current_user = do
    except leave_error (leave_room room_id current_user.id)
    commit

  unfoldable pub get_messages :
      (room_id page page_size : ℕ) → User → Exec (Backend sql redis) PaginatedMessages
  get_messages room_id page page_size current_user =
      except member_error (get_room_history room_id current_user.id page page_size)

  -- `GET /users/me` and `GET /users/online`, in app/api/v1/endpoints/users.py
  unfoldable pub get_me : User → Exec (Backend sql redis) UserResponse
  get_me current_user = pure (user_response current_user)

  unfoldable pub get_online : Exec (Backend sql redis) (List OnlineUser)
  get_online = get_online_users

  -- The number of ids is the answer.
  unfoldable pub mark_read_endpoint :
      (ℕ → Fresh) → (room_id : ℕ) → (message_ids : List ℕ) → User → Exec (Backend sql redis) ℕ
  mark_read_endpoint fresh room_id message_ids current_user = do
    except member_error (mark_messages_read fresh room_id current_user.id message_ids)
    commit
    pure (length message_ids)

  module _ (crypto : Crypto) where
    unfoldable pub register_endpoint :
        Fresh
        → (salt : ℕ) → (username email password : Text) → (display_name : Option Text)
        → Exec (Backend sql redis) User
    register_endpoint fresh salt username email password display_name = do
      user ← except register_error (register crypto fresh salt username email password display_name)
      commit
      pure user

    unfoldable pub login_endpoint :
        TokenSettings
        → ℕ
        → TokenDraws
        → (username password : Text) → Exec (Backend sql redis) TokenPair
    login_endpoint settings now draws username password = do
      tokens ← except login_error (login crypto settings now draws username password)
      commit
      pure tokens

    unfoldable pub refresh_endpoint :
        TokenSettings → ℕ → TokenDraws → (refresh_token : Text) → Exec (Backend sql redis) TokenPair
    refresh_endpoint settings now draws refresh_token = do
      tokens ← except refresh_error (refresh crypto settings now draws refresh_token)
      commit
      pure tokens
