-- ===== src/Security.antt =====
-- Tokens and passwords: app/core/security.py. The libraries `jose` and `passlib`, and the digest
-- that the stored tokens are hashed with, are parameters.
pub mod Tokens
pub mod Plain
use fastapi_realtime_chat.Prelude.{
  ℕ, ◌+◌, ◌*◌, ◌≡◌, Bool, true, false, Option, none, some, leb, if◌then◌else◌, ◌==◌, Text, codes,
  nat_eq, text_eq,
}
use fastapi_realtime_chat.Exec.{jwt_error, Result, ok, err}
use fastapi_realtime_chat.Uuid
use fastapi_realtime_chat.Models.{Fresh}

-- The payload of a token. A claim that is missing is `none`; times are in seconds.
pub record Claims : Type 0 where
  pub sub : Option Text
  pub type : Option Text
  pub exp : ℕ
  pub iat : ℕ
  pub jti : Text

pub record Crypto : Type 0 where
  -- `jwt.encode` and `jwt.decode` with the application's key, at a time.
  pub encode : Claims → Text
  pub decode : (now : ℕ) → Text → Option Claims
  -- `pwd_context.hash`, with the salt that it draws, and `pwd_context.verify`.
  pub hash : (salt : ℕ) → Text → Text
  pub verify : Text → Text → Bool
  pub sha256 : Text → Text
  -- A token that was issued is read back until its expiry, inclusive, as `jose` compares them.
  pub decode-encode :
      (now : ℕ) (c : Claims) → decode now (encode c) ≡ (if leb now c.exp then some c else none)
  -- A password is verified against its own hash.
  pub verify-hash : (salt : ℕ) (password : Text) → verify password (hash salt password) ≡ true

-- The settings that the tokens depend on (app/core/config.py), in seconds.
pub record TokenSettings : Type 0 where
  pub access_token_expire : ℕ
  pub refresh_token_expire : ℕ

abbrev pub default_settings : TokenSettings
default_settings = record { access_token_expire = 30 * 60; refresh_token_expire = 7 * 24 * 60 * 60 }

-- The payload that `_create_token` builds; `fresh` gives the `jti` and the time.
abbrev pub new_claims : Fresh → (subject : ℕ) → (token_type : Text) → (expires_delta : ℕ) → Claims
new_claims fresh subject token_type expires_delta = record {
  sub = some (Uuid.str subject);
  type = some token_type;
  exp = fresh.now + expires_delta;
  iat = fresh.now;
  jti = Uuid.str fresh.id;
}

abbrev pub has_type : Text → Option Text → Bool
has_type t none = false
has_type t (some t') = t' == t

abbrev pub subject_of : Option Text → Result Text
subject_of none = err jwt_error
subject_of (some sub) = ok sub

abbrev pub checked : Text → Option Claims → Result Text
checked token_type none = err jwt_error
checked token_type (some payload) =
    if has_type token_type payload.type then subject_of payload.sub else err jwt_error

module _ (crypto : Crypto) where
  -- `_create_token`
  unfoldable pub create_token :
      Fresh → (subject : ℕ) → (token_type : Text) → (expires_delta : ℕ) → Text
  create_token fresh subject token_type expires_delta =
      crypto.encode (new_claims fresh subject token_type expires_delta)

  unfoldable pub create_access_token : TokenSettings → Fresh → ℕ → Text
  create_access_token settings fresh user_id =
      create_token fresh user_id (codes "access") settings.access_token_expire

  unfoldable pub create_refresh_token : TokenSettings → Fresh → ℕ → Text
  create_refresh_token settings fresh user_id =
      create_token fresh user_id (codes "refresh") settings.refresh_token_expire

  unfoldable pub decode_access_token : (now : ℕ) → Text → Result Text
  decode_access_token now token = checked (codes "access") (crypto.decode now token)

  unfoldable pub decode_refresh_token : (now : ℕ) → Text → Result Text
  decode_refresh_token now token = checked (codes "refresh") (crypto.decode now token)
