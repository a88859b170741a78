-- ===== src/Auth/Rotation.antt =====
-- `refresh` of app/services/auth_service.py.
use fastapi_realtime_chat.Prelude.{
  ℕ, ◌+◌, ◌≤◌, ◌≡◌, refl, sym, ap, ◌∙◌, inl, inr, true, false, Option, none, some, arith, ltb,
  if◌then◌else◌, Bool-cases, is_some, ◌==◌, Text, codes, text_beq_iff, nat_eq, text_eq, beq_refl,
}
use fastapi_realtime_chat.Exec.{authentication_error, Result, ok, err}
use fastapi_realtime_chat.Sql.{Sql}
use fastapi_realtime_chat.Sql.Counting.{one_or_none, found}
use fastapi_realtime_chat.Redis.{Redis}
use fastapi_realtime_chat.Models.{RefreshToken}
use fastapi_realtime_chat.Backend.{Backend, row-cases, result-cases}
use fastapi_realtime_chat.Security.{
  Crypto, TokenSettings, create_refresh_token, decode_refresh_token,
}
use fastapi_realtime_chat.Users.{create_token, get_valid_token, revoke_token}
use fastapi_realtime_chat.Users.TokenRows.{
  valid_rows, hash_rows, get_valid_token_lem, valid_rows-revoke_token, valid_rows-revoke_other,
  hash_rows-revoke_token, valid-le-hash_rows, create_token-stores,
}
use fastapi_realtime_chat.Auth.{
  TokenPair, TokenDraws, fresh_at, parsed, readable, issue_tokens, refresh,
}

found-one :
    {R : Type 0} (o : Result (Option R)) (n : ℕ) (r : Option R)
    → found o ≡ one_or_none n
    → o ≡ ok r
    → is_some r ≡ true
    → n ≡ 1
found-one o n r e h k = ground arith

found-none :
    {R : Type 0} (o : Result (Option R)) (n : ℕ) → found o ≡ one_or_none n → n ≡ 0 → o ≡ ok none
found-none o n e h = ground arith

text_differ : (a b : Text) (n : Text → ℕ) → n a ≡ 0 → 1 ≤ n b → (a == b) ≡ false
text_differ a b n h k = elim (Bool-cases (a == b)) [
  | inr e ↦ e
  | inl e ↦ absurd (omega (arith, ap n ((text_beq_iff a b).0 e)))
]

module _ {sql : Sql} {redis : Redis} (crypto : Crypto) (settings : TokenSettings) where
  -- A token without a valid row is refused.
  pub refused :
      (now : ℕ) (draws : TokenDraws) (token : Text) (s : Backend sql redis)
      → valid_rows now (crypto.sha256 token) s.db ≡ 0
      → (message : Text) × (refresh crypto settings now draws token s
          ≡ (err (authentication_error message), s))
  unfolding refresh get_valid_token
  refused now draws token s h = elim (result-cases (decode_refresh_token crypto now token)) [
    | inr (e, x) ↦ (codes "Invalid or expired refresh token", ground arith)
    | inl (sub, e) ↦ (
      codes "Refresh token revoked or expired",
      ground (
        arith,
        found-none (get_valid_token now (crypto.sha256 token) s).0 _
            (get_valid_token_lem now (crypto.sha256 token) s) h,
      ),
    )
  ]

  module _ (now : ℕ) (draws : TokenDraws) (token : Text) (s : Backend sql redis) where
    abbrev revoked : Backend sql redis
    revoked = (revoke_token (crypto.sha256 token) s).1

    refresh-ok :
        (pair : TokenPair)
        → (refresh crypto settings now draws token s).0 ≡ ok pair
        → (valid_rows now (crypto.sha256 token) s.db ≡ 1)
          × ((user_id : ℕ) × ((issue_tokens crypto settings now draws user_id revoked).0 ≡ ok pair)
              × (refresh crypto settings now draws token s
                  ≡ issue_tokens crypto settings now draws user_id revoked))
    unfolding refresh get_valid_token revoke_token
    refresh-ok pair h = elim (result-cases (readable (decode_refresh_token crypto now token))) [
      | inr (e, x) ↦ absurd (ground arith)
      | inl (sub, readable_sub) ↦ elim (row-cases (get_valid_token now (crypto.sha256 token) s).0) [
        | inr (inl missing) ↦ absurd (ground arith)
        | inr (inr (e, x)) ↦ absurd (ground arith)
        | inl (row, stored) ↦ elim (result-cases (parsed sub)) [
          | inr (e, x) ↦ absurd (ground arith)
          | inl (user_id, e) ↦ (
            found-one (get_valid_token now (crypto.sha256 token) s).0 _ (some row)
                (get_valid_token_lem now (crypto.sha256 token) s) stored refl,
            (user_id, ground arith, ground arith),
          )
        ]
      ]
    ]

    issue-ok :
        (user_id : ℕ) (s' : Backend sql redis) (pair : TokenPair)
        → (issue_tokens crypto settings now draws user_id s').0 ≡ ok pair
        → (pair.refresh_token
            ≡ create_refresh_token crypto settings (fresh_at now draws.refresh) user_id)
          × ((rt : RefreshToken) × ((create_token
                  (fresh_at now draws.row)
                  user_id
                  (crypto.sha256 pair.refresh_token)
                  (now + settings.refresh_token_expire)
                  s').0
                ≡ ok rt))
          × ((issue_tokens crypto settings now draws user_id s').1
              ≡ (create_token
                  (fresh_at now draws.row)
                  user_id
                  (crypto.sha256 pair.refresh_token)
                  (now + settings.refresh_token_expire)
                  s').1)
    unfolding issue_tokens
    issue-ok user_id s' pair h =
        let stored =
          create_token (fresh_at now draws.row) user_id
            (crypto.sha256
              (create_refresh_token crypto settings (fresh_at now draws.refresh) user_id))
            (now + settings.refresh_token_expire) s' in
        elim (result-cases stored.0) [
          | inr (e, x) ↦ absurd (ground arith)
          | inl (rt, e) ↦
              let same : pair.refresh_token
                  ≡ create_refresh_token crypto settings (fresh_at now draws.refresh) user_id =
                ground arith in
              (same, (rt, rw same e), rw same (ground arith))
        ]

    abbrev pub after : Backend sql redis
    after = (refresh crypto settings now draws token s).1

    -- A successful rotation: the token that it issues differs, by its hash, from the one that it was
    -- given. The old one has no valid row any more, at any time; the new one has exactly one, until
    -- it expires; every other token is as valid as before.
    pub refresh_rotates :
        (pair : TokenPair)
        → (refresh crypto settings now draws token s).0 ≡ ok pair
        → ((crypto.sha256 pair.refresh_token == crypto.sha256 token) ≡ false)
          × ((later : ℕ) (h : Text)
              → valid_rows later h after.db ≡ (
                  if crypto.sha256 token == h
                  then 0
                  else if crypto.sha256 pair.refresh_token == h
                  then (if ltb later (now + settings.refresh_token_expire) then 1 else 0)
                  else valid_rows later h s.db))
    refresh_rotates pair ok_pair =
        let old = crypto.sha256 token in
        let new = crypto.sha256 pair.refresh_token in
        let (one, (user_id, issued, same)) = refresh-ok pair ok_pair in
        let (_, (rt, stored), same') = issue-ok user_id revoked pair issued in
        let (unused, valid_after) =
          create_token-stores (fresh_at now draws.row) user_id new
            (now + settings.refresh_token_expire) revoked rt stored in
        let final : after
            ≡ (create_token (fresh_at now draws.row) user_id new
                (now + settings.refresh_token_expire) revoked).1 =
          ap (λ (p : Result TokenPair × Backend sql redis). p.1) same ∙ same' in
        let old_rows : 1 ≤ hash_rows old revoked.db =
          omega (arith, one, valid-le-hash_rows now old s, hash_rows-revoke_token now old s old) in
        let differ : (new == old) ≡ false =
          text_differ new old (λ h. hash_rows h revoked.db) unused old_rows in
        (
          differ,
          λ later h. rw final (elim (Bool-cases (old == h)) [
            | inl e ↦
                let eq = (text_beq_iff old h).0 e in
                let gone : valid_rows later h revoked.db ≡ 0 =
                  ap (λ k. valid_rows later k revoked.db) (sym eq)
                  ∙ valid_rows-revoke_token later old s in
                let not_new : (new == h) ≡ false = ap (λ k. new == k) (sym eq) ∙ differ in
                ground (arith, gone, not_new, valid_after later h)
            | inr e ↦ elim (Bool-cases (new == h)) [
              | inl e' ↦
                  let none_yet : hash_rows h revoked.db ≡ 0 =
                    ap (λ k. hash_rows k revoked.db) (sym ((text_beq_iff new h).0 e')) ∙ unused in
                  ground (arith, none_yet, valid_after later h, valid-le-hash_rows later h revoked)
              | inr e' ↦
                  ground (arith, valid_after later h, valid_rows-revoke_other later old s h e)
            ]
          ]),
        )

    -- A refresh token is good for one rotation: after a successful one, whenever it is presented
    -- again, the answer is an authentication error, and nothing changes.
    pub refresh_replay :
        (pair : TokenPair)
        → (refresh crypto settings now draws token s).0 ≡ ok pair
        → (later : ℕ) (draws' : TokenDraws)
        → (message : Text) × (refresh crypto settings later draws' token after
            ≡ (err (authentication_error message), after))
    refresh_replay pair h later draws' = refused later draws' token after (
        (refresh_rotates pair h).1 later (crypto.sha256 token)
        ∙ ground (arith, beq_refl {A = Text} (crypto.sha256 token)))
