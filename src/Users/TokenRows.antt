-- ===== src/Users/TokenRows.antt =====
-- The valid rows of a token in app/repositories/refresh_token_repo.py.
use fastapi_realtime_chat.Prelude.{
  ℕ, ◌+◌, ◌≤◌, ◌≡◌, refl, ◌∙◌, Bool, true, false, not, ◌&&◌, arith, ltb, leb, if◌then◌else◌, ◌==◌,
  Text, text_beq_iff, nat_eq, text_eq,
}
use fastapi_realtime_chat.Exec.{ok}
use fastapi_realtime_chat.Sql.{Sql, count_where}
use fastapi_realtime_chat.Sql.Counting.{
  count-filter, count-complement, count-ext, count-map, count-never, count_mono, one_or_none, found,
  found-count,
}
use fastapi_realtime_chat.Redis.{Redis}
use fastapi_realtime_chat.Models.{RefreshToken, Fresh}
use fastapi_realtime_chat.Backend.{Db, Backend}
use fastapi_realtime_chat.Users.{
  has_hash, valid_hash, set_revoked, new_refresh_token, token_fits, create_token, get_valid_token,
  revoke_where, revoke_token, delete_expired,
}

abbrev pub valid_rows : {sql : Sql} → (now : ℕ) → Text → Db sql → ℕ
valid_rows {sql} now h db = count_where sql (valid_hash now h) db.tokens

abbrev pub hash_rows : {sql : Sql} → Text → Db sql → ℕ
hash_rows {sql} h db = count_where sql (has_hash h) db.tokens

module _ {sql : Sql} {redis : Redis} where
  module _ (now : ℕ) (h : Text) (s : Backend sql redis) where
    pub get_valid_token_lem :
        found (get_valid_token now h s).0 ≡ one_or_none (valid_rows now h s.db)
    unfolding get_valid_token
    get_valid_token_lem = found-count (valid_hash now h) (sql.scan RefreshToken s.db.tokens)

    -- A revoked token has no valid row, at any time.
    pub valid_rows-revoke_token : valid_rows now h (revoke_token h s).1.db ≡ 0
    unfolding revoke_token revoke_where
    valid_rows-revoke_token =
        sql.count-update RefreshToken (valid_hash now h) (has_hash h) set_revoked s.db.tokens
        ∙ count-map (valid_hash now h) (λ t. if has_hash h t then set_revoked t else t)
            (sql.scan RefreshToken s.db.tokens)
        ∙ count-never _ (sql.scan RefreshToken s.db.tokens) (λ t. ground arith)

    pub valid_rows-revoke_other :
        (h' : Text)
        → (h == h') ≡ false
        → valid_rows now h' (revoke_token h s).1.db ≡ valid_rows now h' s.db
    unfolding revoke_token revoke_where
    valid_rows-revoke_other h' other =
        sql.count-update RefreshToken (valid_hash now h') (has_hash h) set_revoked s.db.tokens
        ∙ count-map (valid_hash now h') (λ t. if has_hash h t then set_revoked t else t)
            (sql.scan RefreshToken s.db.tokens)
        ∙ count-ext _ _ (sql.scan RefreshToken s.db.tokens) (λ t.
          ground
            (arith, text_beq_iff t.token_hash h, text_beq_iff t.token_hash h', text_beq_iff h h'))

    -- Its rows stay.
    pub hash_rows-revoke_token :
        (h' : Text) → hash_rows h' (revoke_token h s).1.db ≡ hash_rows h' s.db
    unfolding revoke_token revoke_where
    hash_rows-revoke_token h' =
        sql.count-update RefreshToken (has_hash h') (has_hash h) set_revoked s.db.tokens
        ∙ count-map (has_hash h') (λ t. if has_hash h t then set_revoked t else t)
            (sql.scan RefreshToken s.db.tokens)
        ∙ count-ext _ _ (sql.scan RefreshToken s.db.tokens) (λ t. ground arith)

    pub valid-le-hash_rows : valid_rows now h s.db ≤ hash_rows h s.db
    valid-le-hash_rows =
        count_mono (valid_hash now h) (has_hash h) (sql.scan RefreshToken s.db.tokens)
          (λ t e. ground arith)

  module _ (fresh : Fresh) (user_id : ℕ) (h : Text) (expires_at : ℕ) (s : Backend sql redis) where
    -- A token that is stored had no row, and has a valid one until it expires; the valid rows of
    -- other tokens are as before.
    pub create_token-stores :
        (rt : RefreshToken)
        → (create_token fresh user_id h expires_at s).0 ≡ ok rt
        → (hash_rows h s.db ≡ 0)
          × ((now : ℕ) (h' : Text)
              → valid_rows now h' (create_token fresh user_id h expires_at s).1.db
                ≡ (if h == h' && ltb now expires_at then 1 else 0) + valid_rows now h' s.db)
    unfolding create_token token_fits
    create_token-stores rt e = (
      ground arith,
      λ now h'. ground (
        arith,
        sql.count-insert RefreshToken (valid_hash now h')
            (new_refresh_token fresh user_id h expires_at) s.db.tokens,
      ),
    )

  -- `delete_expired` answers how many rows it has deleted. Then or at any later time, every token
  -- has as many valid rows as without it, and no row that is left had expired.
  pub delete_expired_lem :
      (now : ℕ) (s : Backend sql redis)
      → let s' = (delete_expired now s).1 in
        ((n : ℕ) × ((delete_expired now s).0 ≡ ok n)
          × (n + count_where sql (λ _. true) s'.db.tokens
              ≡ count_where sql (λ _. true) s.db.tokens))
        × ((later : ℕ) (h : Text)
            → now ≤ later
            → valid_rows later h s'.db ≡ valid_rows later h s.db)
        × (count_where sql (λ t. leb t.expires_at now) s'.db.tokens ≡ 0)
  unfolding delete_expired
  delete_expired_lem now s =
      let expired = λ (t : RefreshToken). leb t.expires_at now in
      let rows = sql.scan RefreshToken s.db.tokens in
      let deleted = λ (q : RefreshToken → Bool).
        sql.count-delete RefreshToken q expired s.db.tokens
        ∙ count-filter q (λ t. not (expired t)) rows in
      (
        (
          count_where sql expired s.db.tokens,
          refl,
          omega (arith, deleted (λ _. true), count-complement expired rows),
        ),
        λ later h le. deleted (valid_hash later h) ∙ count-ext _ _ rows (λ t. ground arith),
        deleted expired ∙ count-never _ rows (λ t. ground arith),
      )
