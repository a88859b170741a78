-- ===== src/Integrity/Tables.antt =====
-- INSERT, UPDATE and DELETE keep keys unique and references answered.
use fastapi_realtime_chat.Prelude.{
  ℕ, ◌+◌, ◌≤◌, ◌<◌, ◌≡◌, ◌∙◌, Bool, true, not, ◌&&◌, arith, if◌then◌else◌, nat_eq, text_eq,
}
use fastapi_realtime_chat.Sql.{Sql, count_where}
use fastapi_realtime_chat.Sql.Counting.{count-map, count-ext, count-filter, count_mono}
use fastapi_realtime_chat.Integrity.{Unique, References}

module _ (sql : Sql) {R : Type 0} (q : R → Bool) where
  -- A new row counts if it meets the condition.
  count-inserted :
      (r : R) (t : sql.Table R)
      → count_where sql q (sql.insert R r t) ≡ (if q r then 1 else 0) + count_where sql q t
  count-inserted r t = ground (arith, sql.count-insert R q r t)

  -- An update that the condition does not see.
  pub count-updated :
      (p : R → Bool) (f : R → R)
      → ((r : R) → q (f r) ≡ q r)
      → (t : sql.Table R) → count_where sql q (sql.update R p f t) ≡ count_where sql q t
  count-updated p f same t =
      sql.count-update R q p f t
      ∙ count-map q (λ r. if p r then f r else r) (sql.scan R t)
      ∙ count-ext (λ r. q (if p r then f r else r)) q (sql.scan R t) (λ r. ground (arith, same r))

  pub count-deleted :
      (p : R → Bool) (t : sql.Table R) → count_where sql q (sql.delete R p t) ≤ count_where sql q t
  count-deleted p t = omega (
    arith,
    sql.count-delete R q p t,
    count-filter q (λ r. not (p r)) (sql.scan R t),
    count_mono (λ r. not (p r) && q r) q (sql.scan R t) (λ r h. ground arith),
  )

module _ {sql : Sql} {K R : Type 0} {key : K → R → Bool} (t : sql.Table R) where
  pub Unique-insert :
      (r : R)
      → ((k : K) → key k r ≡ true → count_where sql (key k) t ≡ 0)
      → Unique sql key t
      → Unique sql key (sql.insert R r t)
  Unique-insert r free unique = record {
    at = λ k. ground (arith, count-inserted sql (key k) r t, free k, unique.at k);
  }

  pub Unique-update :
      (p : R → Bool) (f : R → R)
      → ((k : K) (r : R) → key k (f r) ≡ key k r)
      → Unique sql key t
      → Unique sql key (sql.update R p f t)
  Unique-update p f same unique = record {
    at = λ k. omega (arith, count-updated sql (key k) p f (same k) t, unique.at k);
  }

  pub Unique-delete : (p : R → Bool) → Unique sql key t → Unique sql key (sql.delete R p t)
  Unique-delete p unique = record {
    at = λ k. omega (arith, count-deleted sql (key k) p t, unique.at k);
  }

-- Every key of the old table is one of the new.
pub record Covers (sql : Sql) {P : Type 0} (key : ℕ → P → Bool) (old new : sql.Table P)
    : Type 0 where
  pub at : (k : ℕ) → count_where sql (key k) new ≡ 0 → count_where sql (key k) old ≡ 0

module _ {sql : Sql} {P : Type 0} (key : ℕ → P → Bool) (t : sql.Table P) where
  pub Covers-insert : (r : P) → Covers sql key t (sql.insert P r t)
  Covers-insert r = record { at = λ k h. omega (arith, h, count-inserted sql (key k) r t) }

  pub Covers-update :
      (p : P → Bool) (f : P → P)
      → ((k : ℕ) (r : P) → key k (f r) ≡ key k r)
      → Covers sql key t (sql.update P p f t)
  Covers-update p f same = record {
    at = λ k h. omega (arith, h, count-updated sql (key k) p f (same k) t);
  }

module _ {sql : Sql} {P C : Type 0} {key : ℕ → P → Bool} {refers : ℕ → C → Bool} {ps : sql.Table P}
    {cs : sql.Table C} (refs : References sql key refers ps cs) where
  pub References-covers :
      {ps' : sql.Table P} → Covers sql key ps ps' → References sql key refers ps' cs
  References-covers covers = record { at = λ k h. refs.at k (covers.at k h) }

  pub References-insert :
      (r : C)
      → ((k : ℕ) → refers k r ≡ true → 0 < count_where sql (key k) ps)
      → References sql key refers ps (sql.insert C r cs)
  References-insert r there = record {
    at = λ k h. ground (arith, count-inserted sql (refers k) r cs, refs.at k h, there k);
  }

  pub References-update :
      (p : C → Bool) (f : C → C)
      → ((k : ℕ) (r : C) → refers k (f r) ≡ refers k r)
      → References sql key refers ps (sql.update C p f cs)
  References-update p f same = record {
    at = λ k h. omega (arith, count-updated sql (refers k) p f (same k) cs, refs.at k h);
  }

  pub References-delete : (p : C → Bool) → References sql key refers ps (sql.delete C p cs)
  References-delete p = record {
    at = λ k h. omega (arith, count-deleted sql (refers k) p cs, refs.at k h);
  }
