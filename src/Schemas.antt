-- ===== src/Schemas.antt =====
-- What the schemas of app/schemas let through to the endpoints, and the bounds of query parameters.
-- A body that a schema refuses is answered with 422, and its endpoint is not called.
pub mod Accounts
pub mod Bounds
use fastapi_realtime_chat.Prelude.{
  ℕ, Bool, true, false, not, ◌&&◌, ◌||◌, Option, none, some, List, [], ◌∷◌, leb, nat_beq,
  if◌then◌else◌, Text, codes, nat_eq, text_eq, length, filter,
}
use fastapi_realtime_chat.Exec.{Error, http_exception, Exec, raise}
use fastapi_realtime_chat.Sql.{Sql}
use fastapi_realtime_chat.Redis.{Redis}
use fastapi_realtime_chat.Models.{User, Fresh}
use fastapi_realtime_chat.Backend.{Backend}
use fastapi_realtime_chat.Users.{lower}
use fastapi_realtime_chat.Rooms.{RoomCreate}
use fastapi_realtime_chat.Chat.{PaginatedMessages}
use fastapi_realtime_chat.Handlers.{is_empty}
use fastapi_realtime_chat.Security.{Crypto}
use fastapi_realtime_chat.Responses.{RoomResponse}
use fastapi_realtime_chat.Api.{
  register_endpoint, create_room_endpoint, get_messages, mark_read_endpoint,
}

abbrev pub within : (low high : ℕ) → Text → Bool
within low high s = leb low (length s) && leb (length s) high

-- `Field(None, max_length=…)`
abbrev pub at_most : ℕ → Option Text → Bool
at_most high none = true
at_most high (some s) = leb (length s) high

-- `c.isalnum()` on ASCII, of which the model's usernames are; Python admits every script.
abbrev pub is_alnum : ℕ → Bool
is_alnum c = (leb b'0' c && leb c b'9') || (leb b'A' c && leb c b'Z') || (leb b'a' c && leb c b'z')

abbrev pub all : (ℕ → Bool) → Text → Bool
all p [] = true
all p (c ∷ s) = p c && all p s

-- `s.isalnum()`, false on the empty text.
abbrev pub isalnum : Text → Bool
isalnum [] = false
isalnum (c ∷ s) = all is_alnum (c ∷ s)

-- `s.replace(c, "")`
abbrev pub remove_char : ℕ → Text → Text
remove_char c = filter (λ d. not (nat_beq c d))

unfoldable pub username_alphanumeric : Text → Option Text
username_alphanumeric v =
    if isalnum (remove_char b'-' (remove_char b'_' v)) then some (lower v) else none

pub record UserRegister : Type 0 where
  pub username : Text
  pub email : Text
  pub password : Text
  pub display_name : Option Text

-- `UserRegister`: `email_of` is what `EmailStr` makes of a text, `none` if it is no address.
unfoldable pub user_register : (email_of : Text → Option Text) → UserRegister → Option UserRegister
user_register email_of raw =
    let fits =
      within 3 50 raw.username && within 8 128 raw.password && at_most 100 raw.display_name in
    elim (username_alphanumeric raw.username) [
      | none ↦ none
      | some username ↦ elim (email_of raw.email) [
        | none ↦ none
        | some email ↦
            if fits then some (record raw { username = username; email = email }) else none
      ]
    ]

unfoldable pub room_create : RoomCreate → Option RoomCreate
room_create raw = if within 1 100 raw.name && at_most 500 raw.description then some raw else none

-- `MessageCreate`, with its `model_post_init`.
pub record MessageCreate : Type 0 where
  pub content : Option Text
  pub image_url : Option Text

unfoldable pub message_create : MessageCreate → Option MessageCreate
message_create raw =
    if at_most 4000 raw.content && not (is_empty raw.content && is_empty raw.image_url)
    then some raw
    else none

-- `MarkReadRequest`, after its ids have been read.
unfoldable pub mark_read_request : List ℕ → Option (List ℕ)
mark_read_request [] = none
mark_read_request (id ∷ ids) = some (id ∷ ids)

-- `page` and `page_size` of `get_messages`.
unfoldable pub page_query : (page page_size : ℕ) → Bool
page_query page page_size = leb 1 page && leb 1 page_size && leb page_size 200

abbrev pub unprocessable : Error
unprocessable = http_exception 422 (codes "Unprocessable Entity")

module _ {sql : Sql} {redis : Redis} where
  -- An endpoint behind the schema of its body.
  abbrev pub validated :
      {R A : Type 0} → Option R → (R → Exec (Backend sql redis) A) → Exec (Backend sql redis) A
  validated none endpoint = raise unprocessable
  validated (some body) endpoint = endpoint body

  -- `POST /rooms`
  unfoldable pub post_room :
      Fresh → Fresh → RoomCreate → User → Exec (Backend sql redis) RoomResponse
  post_room room_fresh member_fresh raw current_user =
      validated (room_create raw)
        (λ body. create_room_endpoint room_fresh member_fresh body current_user)

  -- `GET /messages/{room_id}`
  unfoldable pub get_history :
      (room_id page page_size : ℕ) → User → Exec (Backend sql redis) PaginatedMessages
  get_history room_id page page_size current_user =
      if page_query page page_size
      then get_messages room_id page page_size current_user
      else raise unprocessable

  -- `POST /messages/{room_id}/read`
  unfoldable pub post_read :
      (ℕ → Fresh) → (room_id : ℕ) → List ℕ → User → Exec (Backend sql redis) ℕ
  post_read fresh room_id raw current_user =
      validated (mark_read_request raw) (λ ids. mark_read_endpoint fresh room_id ids current_user)

  -- `POST /auth/register`
  unfoldable pub post_register :
      (email_of : Text → Option Text)
      → Crypto
      → Fresh
      → (salt : ℕ) → UserRegister
      → Exec (Backend sql redis) User
  post_register email_of crypto fresh salt raw = validated (user_register email_of raw) (λ body.
      register_endpoint crypto fresh salt body.username body.email body.password body.display_name)
