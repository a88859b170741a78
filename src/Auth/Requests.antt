-- ===== src/Auth/Requests.antt =====
-- The user behind the token of a request: app/dependencies/auth.py.
use fastapi_realtime_chat.Prelude.{
  ℕ, ◌+◌, ◌^◌, ◌<◌, ◌≡◌, inl, inr, Option, none, some, Option-cases, arith, leb, if◌then◌else◌,
  nat_eq, text_eq,
}
use fastapi_realtime_chat.Exec.{credentials_exception, Result, ok, err}
use fastapi_realtime_chat.Uuid.RoundTrip.{parse-str}
use fastapi_realtime_chat.Sql.{Sql}
use fastapi_realtime_chat.Redis.{Redis}
use fastapi_realtime_chat.Models.{User, Fresh}
use fastapi_realtime_chat.Backend.{Backend, result-cases}
use fastapi_realtime_chat.Security.{
  Crypto, TokenSettings, create_access_token, create_refresh_token,
}
use fastapi_realtime_chat.Security.Tokens.{access_token_accepted, refresh_token_accepted}
use fastapi_realtime_chat.Users.{get_user}
use fastapi_realtime_chat.Auth.{get_current_user}

-- The user that a query by id has found, if the account is there and active.
abbrev pub user_behind : Result (Option User) → Result User
user_behind (ok none) = err credentials_exception
user_behind (ok (some u)) = if u.is_active then ok u else err credentials_exception
user_behind (err e) = err e

module _ {sql : Sql} {redis : Redis} (crypto : Crypto) (settings : TokenSettings) where
  module _ (fresh : Fresh) (id now : ℕ) (s : Backend sql redis) where
    -- An access token that was issued for an id stands for the account with that id up to its
    -- expiry, as long as the account is there and active; otherwise the request is refused. A
    -- refresh token is refused always. No answer changes anything.
    pub get_current_user_lem :
        id < 2 ^ 128
        → (get_current_user crypto now (create_access_token crypto settings fresh id) s ≡ (
          (if leb now (fresh.now + settings.access_token_expire)
              then user_behind (get_user id s).0
              else err credentials_exception),
          s,
        ))
          × (get_current_user crypto now (create_refresh_token crypto settings fresh id) s
              ≡ (err credentials_exception, s))
    unfolding get_current_user get_user
    get_current_user_lem h = (
      elim (result-cases (get_user id s).0) [
        | inl (found, e) ↦ elim (Option-cases found) [
          | inl e' ↦
              ground (arith, parse-str id h, (access_token_accepted crypto settings fresh id now).0)
          | inr (u, e') ↦
              ground (arith, parse-str id h, (access_token_accepted crypto settings fresh id now).0)
        ]
        | inr (x, e) ↦
            ground (arith, parse-str id h, (access_token_accepted crypto settings fresh id now).0)
      ],
      ground (arith, (refresh_token_accepted crypto settings fresh id now).1),
    )
