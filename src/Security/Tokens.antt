-- ===== src/Security/Tokens.antt =====
-- Which tokens app/core/security.py accepts, and for how long.
use fastapi_realtime_chat.Prelude.{ℕ, ◌+◌, ◌≡◌, arith, leb, if◌then◌else◌, codes, nat_eq, text_eq}
use fastapi_realtime_chat.Exec.{jwt_error, ok, err}
use fastapi_realtime_chat.Uuid
use fastapi_realtime_chat.Models.{Fresh}
use fastapi_realtime_chat.Security.{
  Crypto, TokenSettings, new_claims, create_token, create_access_token, create_refresh_token,
  decode_access_token, decode_refresh_token,
}

module _ (crypto : Crypto) (settings : TokenSettings) (fresh : Fresh) (user_id now : ℕ) where
  -- An access token gives back its user up to its expiry, and never serves as a refresh token.
  pub access_token_accepted :
      (decode_access_token crypto now (create_access_token crypto settings fresh user_id) ≡ (
        if leb now (fresh.now + settings.access_token_expire)
        then ok (Uuid.str user_id)
        else err jwt_error))
      × (decode_refresh_token crypto now (create_access_token crypto settings fresh user_id)
          ≡ err jwt_error)
  unfolding create_access_token create_token decode_access_token decode_refresh_token
  access_token_accepted =
      let c = new_claims fresh user_id (codes "access") settings.access_token_expire in
      (ground (arith, crypto.decode-encode now c), ground (arith, crypto.decode-encode now c))

  -- A refresh token gives back its user up to its expiry, and never serves as an access token.
  pub refresh_token_accepted :
      (decode_refresh_token crypto now (create_refresh_token crypto settings fresh user_id) ≡ (
        if leb now (fresh.now + settings.refresh_token_expire)
        then ok (Uuid.str user_id)
        else err jwt_error))
      × (decode_access_token crypto now (create_refresh_token crypto settings fresh user_id)
          ≡ err jwt_error)
  unfolding create_refresh_token create_token decode_access_token decode_refresh_token
  refresh_token_accepted =
      let c = new_claims fresh user_id (codes "refresh") settings.refresh_token_expire in
      (ground (arith, crypto.decode-encode now c), ground (arith, crypto.decode-encode now c))
