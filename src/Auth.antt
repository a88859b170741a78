-- ===== src/Auth.antt =====
-- Accounts and sessions: app/services/auth_service.py, and who is behind a request:
-- app/dependencies/auth.py.
pub mod Rotation
pub mod Registration
pub mod Requests
use fastapi_realtime_chat.Prelude.{
  ℕ, ◌+◌, Bool, true, false, not, Option, none, some, [], ◌∷◌, ◌++◌, if◌then◌else◌, is_some, Text,
  codes, nat_eq, text_eq,
}
use fastapi_realtime_chat.Exec.{
  Error, authentication_error, conflict_error, value_error, credentials_exception,
  forbidden_exception, Result, ok, err, Exec, pure, lift, guard, ◌>>=◌, ◌>>◌,
}
use fastapi_realtime_chat.Uuid
use fastapi_realtime_chat.Sql.{Sql}
use fastapi_realtime_chat.Redis.{Redis}
use fastapi_realtime_chat.Models.{User, UserRole, user, admin, Fresh}
use fastapi_realtime_chat.Backend.{Backend}
use fastapi_realtime_chat.Security.{
  Crypto, TokenSettings, create_access_token, create_refresh_token, decode_access_token,
  decode_refresh_token,
}
use fastapi_realtime_chat.Users.{
  lower, new_user, get_user, get_by_username, get_by_email, insert_user, create_token,
  get_valid_token, revoke_token,
}

-- app/schemas/token.py
pub record TokenPair : Type 0 where
  pub access_token : Text
  pub refresh_token : Text

-- `display_name or username`
abbrev pub or_username : Option Text → Text → Text
or_username none username = username
or_username (some []) username = username
or_username (some (c ∷ s)) username = c ∷ s

-- What one issue of tokens draws: the `jti` of each and the row of the second.
pub record TokenDraws : Type 0 where
  pub access : ℕ
  pub refresh : ℕ
  pub row : ℕ

abbrev pub fresh_at : ℕ → ℕ → Fresh
fresh_at now id = record { id = id; now = now }

abbrev pub parsed : Text → Result ℕ
parsed text = elim (Uuid.parse text) [ none ↦ err value_error | some id ↦ ok id ]

abbrev pub active_user : Option User → Result User
active_user none = err credentials_exception
active_user (some u) = if u.is_active then ok u else err credentials_exception

abbrev pub invalid_login : Error
invalid_login = authentication_error (codes "Invalid username or password")

abbrev pub verified : Crypto → Text → Option User → Result User
verified crypto password none = err invalid_login
verified crypto password (some u) =
    if crypto.verify password u.hashed_password
    then (if u.is_active then ok u else err (authentication_error (codes "Account is disabled")))
    else err invalid_login

-- `except JWTError`
abbrev pub readable : Result Text → Result Text
readable (ok sub) = ok sub
readable (err e) = err (authentication_error (codes "Invalid or expired refresh token"))

-- `except (JWTError, ValueError): raise credentials_exception()`
abbrev pub token_user_id : Crypto → ℕ → Text → Result ℕ
token_user_id crypto now token = elim (decode_access_token crypto now token) [
  | err e ↦ err credentials_exception
  | ok sub ↦ elim (Uuid.parse sub) [ none ↦ err credentials_exception | some id ↦ ok id ]
]

module _ {sql : Sql} {redis : Redis} (crypto : Crypto) where
  unfoldable pub register :
      Fresh
      → (salt : ℕ) → (username email password : Text) → (display_name : Option Text)
      → Exec (Backend sql redis) User
  register fresh salt username email password display_name = do
    by_name ← get_by_username username
    guard (not (is_some by_name))
        (conflict_error (codes "Username '" ++ (username ++ codes "' is already taken")))
    by_email ← get_by_email email
    guard (not (is_some by_email))
        (conflict_error (codes "Email '" ++ (email ++ codes "' is already registered")))
    insert_user (
        new_user fresh (lower username) (lower email) (crypto.hash salt password)
          (some (or_username display_name username)))

module _ {sql : Sql} {redis : Redis} (crypto : Crypto) (settings : TokenSettings) where
  -- The tokens of a user: an access token and a refresh token, the second stored by its hash.
  unfoldable pub issue_tokens : ℕ → TokenDraws → (user_id : ℕ) → Exec (Backend sql redis) TokenPair
  issue_tokens now draws user_id =
      let access = create_access_token crypto settings (fresh_at now draws.access) user_id in
      let refresh = create_refresh_token crypto settings (fresh_at now draws.refresh) user_id in
      (do
        create_token (fresh_at now draws.row) user_id (crypto.sha256 refresh)
            (now + settings.refresh_token_expire)
        pure (record { access_token = access; refresh_token = refresh }))

  unfoldable pub login :
      ℕ → TokenDraws → (username password : Text) → Exec (Backend sql redis) TokenPair
  login now draws username password = do
    found ← get_by_username username
    u ← lift (verified crypto password found)
    issue_tokens now draws u.id

  unfoldable pub refresh :
      ℕ → TokenDraws → (refresh_token : Text) → Exec (Backend sql redis) TokenPair
  refresh now draws refresh_token = do
    sub ← lift (readable (decode_refresh_token crypto now refresh_token))
    db_token ← get_valid_token now (crypto.sha256 refresh_token)
    guard (is_some db_token) (authentication_error (codes "Refresh token revoked or expired"))
    revoke_token (crypto.sha256 refresh_token)
    user_id ← lift (parsed sub)
    issue_tokens now draws user_id

module _ {sql : Sql} {redis : Redis} (crypto : Crypto) where
  -- `get_current_user` and `get_current_user_ws`
  unfoldable pub get_current_user : ℕ → (token : Text) → Exec (Backend sql redis) User
  get_current_user now token = do
    user_id ← lift (token_user_id crypto now token)
    found ← get_user user_id
    lift (active_user found)

abbrev pub is_admin : UserRole → Bool
is_admin user = false
is_admin admin = true

unfoldable pub require_admin : User → Result User
require_admin u =
    if is_admin u.role then ok u else err (forbidden_exception (codes "Admin access required"))
