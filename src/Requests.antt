-- ===== src/Requests.antt =====
-- The HTTP requests that work on the database, whole: the session around them (app/db/session.py),
-- who sends them (app/dependencies/auth.py), the schema of their body and their endpoint
-- (app/api/v1/endpoints). What they answer is left out.
use fastapi_realtime_chat.Prelude.{ℕ, ℤ, Bool, Option, List, Text, nat_eq, text_eq}
use fastapi_realtime_chat.Exec.{Exec, pure, ◌>>=◌, ◌>>◌}
use fastapi_realtime_chat.Sql.{Sql}
use fastapi_realtime_chat.Redis.{Redis}
use fastapi_realtime_chat.Models.{User, Fresh}
use fastapi_realtime_chat.Backend.{Backend}
use fastapi_realtime_chat.Security.{Crypto, TokenSettings}
use fastapi_realtime_chat.Auth.{TokenDraws, get_current_user}
use fastapi_realtime_chat.Rooms.{RoomCreate}
use fastapi_realtime_chat.Schemas
use fastapi_realtime_chat.Notifications
use fastapi_realtime_chat.Api

-- Paths and queries have been read: a room id is a UUID.
pub data Request : Type 0 where
  register : Schemas.UserRegister → Request
  login : (username password : Text) → Request
  refresh : (refresh_token : Text) → Request
  get_me get_online : (token : Text) → Request
  create_room : (token : Text) → RoomCreate → Request
  list_rooms : (token : Text) → (limit offset : ℤ) → Request
  my_rooms : (token : Text) → Request
  get_room join_room leave_room : (token : Text) → (room_id : ℕ) → Request
  get_messages : (token : Text) → (room_id page page_size : ℕ) → Request
  mark_read : (token : Text) → (room_id : ℕ) → (message_ids : List ℕ) → Request
  get_notifications : (token : Text) → (unread_only : Bool) → (limit : ℤ) → Request
  unread_count mark_all_read : (token : Text) → Request

-- What the application is given once: the libraries for passwords and tokens, the test of an
-- address, the settings.
pub record Given : Type 0 where
  pub crypto : Crypto
  pub email_of : Text → Option Text
  pub settings : TokenSettings

-- What one request draws: the time, the defaults of new rows, a salt and the ids of tokens.
pub record Draws : Type 0 where
  pub now : ℕ
  pub fresh : ℕ → Fresh
  pub salt : ℕ
  pub tokens : TokenDraws

module _ {sql : Sql} {redis : Redis} (given : Given) (draws : Draws) where
  -- `current_user: User = Depends(get_current_user)`
  abbrev pub authenticated :
      {A : Type 0}
      → (token : Text) → (User → Exec (Backend sql redis) A)
      → Exec (Backend sql redis) (Unit {0})
  authenticated token endpoint = do
    current_user ← get_current_user given.crypto draws.now token
    endpoint current_user
    pure tt

  unfoldable pub endpoint_of : Request → Exec (Backend sql redis) (Unit {0})
  endpoint_of (register body) = do
    Schemas.post_register given.email_of given.crypto (draws.fresh 0) draws.salt body
    pure tt
  endpoint_of (login username password) = do
    Api.login_endpoint given.crypto given.settings draws.now draws.tokens username password
    pure tt
  endpoint_of (refresh refresh_token) = do
    Api.refresh_endpoint given.crypto given.settings draws.now draws.tokens refresh_token
    pure tt
  endpoint_of (get_me token) = authenticated token (λ u. Api.get_me u)
  endpoint_of (get_online token) = authenticated token (λ u. Api.get_online)
  endpoint_of (create_room token body) =
      authenticated token (λ u. Schemas.post_room (draws.fresh 0) (draws.fresh 1) body u)
  endpoint_of (list_rooms token limit offset) =
      authenticated token (λ u. Api.list_rooms limit offset)
  endpoint_of (my_rooms token) = authenticated token (λ u. Api.my_rooms u)
  endpoint_of (get_room token room_id) = authenticated token (λ u. Api.get_room room_id u)
  endpoint_of (join_room token room_id) =
      authenticated token (λ u. Api.join_room_endpoint (draws.fresh 0) room_id u)
  endpoint_of (leave_room token room_id) =
      authenticated token (λ u. Api.leave_room_endpoint room_id u)
  endpoint_of (get_messages token room_id page page_size) =
      authenticated token (λ u. Schemas.get_history room_id page page_size u)
  endpoint_of (mark_read token room_id message_ids) =
      authenticated token (λ u. Schemas.post_read draws.fresh room_id message_ids u)
  endpoint_of (get_notifications token unread_only limit) =
      authenticated token (λ u. Notifications.get_notifications unread_only limit u)
  endpoint_of (unread_count token) =
      authenticated token (λ u. Notifications.unread_count_endpoint u)
  endpoint_of (mark_all_read token) = authenticated token (λ u. Notifications.read_all u)

  -- The request in its session.
  unfoldable pub perform : Request → Exec (Backend sql redis) (Unit {0})
  perform request = Api.get_db (endpoint_of request)
