-- ===== src/Integrity/Cascades.antt =====
-- Deleted rows, and the rows that referred to them: deleted too, or no longer referring.
use fastapi_realtime_chat.Prelude.{
  ℕ, ◌+◌, ◌≡◌, ◌⊎◌, inl, inr, ◌∙◌, sym, refl, Bool-cases, nat_beq, Bool, true, false, not, ◌&&◌,
  List, [], ◌∷◌, arith, if◌then◌else◌, nat_eq, text_eq, ltb, count,
}
use fastapi_realtime_chat.Sql.{Sql, count_where}
use fastapi_realtime_chat.Sql.Counting.{count-map, count-ext, count-filter, count-never, count_mono}
use fastapi_realtime_chat.Integrity.{References}
use fastapi_realtime_chat.Integrity.Tables.{count-deleted}

-- A deletion takes no keys but those that are gone.
pub record Drops (sql : Sql) {P : Type 0} (key : ℕ → P → Bool) (gone : ℕ → Bool)
    (old new : sql.Table P) : Type 0 where
  pub at :
      (k : ℕ)
      → count_where sql (key k) new ≡ 0
      → (gone k ≡ true) ⊎ (count_where sql (key k) old ≡ 0)

count_split :
    {R : Type 0} (p q : R → Bool) (xs : List R)
    → count q xs ≡ count (λ x. q x && p x) xs + count (λ x. not (p x) && q x) xs
count_split p q [] = refl
count_split p q (x ∷ xs) = ground (arith, count_split p q xs)

pub count-deleted_eq :
    (sql : Sql) {R : Type 0} (q p : R → Bool) (t : sql.Table R)
    → count_where sql q (sql.delete R p t) ≡ count_where sql (λ x. not (p x) && q x) t
count-deleted_eq sql {R} q p t =
    sql.count-delete R q p t ∙ count-filter q (λ r. not (p r)) (sql.scan R t)

module _ {sql : Sql} {P : Type 0} (key : ℕ → P → Bool) (p : P → Bool) (t : sql.Table P) where
  pub Drops-delete :
      Drops sql key (λ k. ltb 0 (count_where sql (λ x. key k x && p x) t)) t (sql.delete P p t)
  Drops-delete = record {
    at = λ k h.
        ground (arith, h, count-deleted_eq sql (key k) p t, count_split p (key k) (sql.scan P t));
  }

-- A condition with a key, which no row meets at two keys.
module _ (sql : Sql) {R : Type 0} (key : ℕ → R → Bool)
    (same : (j k : ℕ) (x : R) → key j x ≡ true → key k x ≡ true → nat_beq k j ≡ true) (id : ℕ)
    (t : sql.Table R) where
  pub count-others :
      (k : ℕ)
      → nat_beq k id ≡ false
      → count_where sql (key k) (sql.delete R (key id) t) ≡ count_where sql (key k) t
  count-others k e =
      count-deleted_eq sql (key k) (key id) t
      ∙ count-ext (λ x. not (key id x) && key k x) (key k) (sql.scan R t)
          (λ x. ground (arith, e, same id k x))

  pub Drops-delete_key : Drops sql key (λ k. nat_beq k id) t (sql.delete R (key id) t)
  Drops-delete_key = record {
    at = λ k h. elim (Bool-cases (nat_beq k id)) [
      | inl e ↦ inl e
      | inr e ↦ inr (sym (count-others k e) ∙ h)
    ];
  }

-- An update whose rows no longer meet the condition is, for it, a deletion.
count-nulled :
    (sql : Sql) {R : Type 0} (q p : R → Bool) (f : R → R)
    → ((r : R) → q (f r) ≡ false)
    → (t : sql.Table R)
    → count_where sql q (sql.update R p f t) ≡ count_where sql (λ r. not (p r) && q r) t
count-nulled sql {R} q p f forgets t =
    sql.count-update R q p f t
    ∙ count-map q (λ r. if p r then f r else r) (sql.scan R t)
    ∙ count-ext (λ r. q (if p r then f r else r)) (λ r. not (p r) && q r) (sql.scan R t)
        (λ r. ground (arith, forgets r))

module _ {sql : Sql} {P C : Type 0} {key : ℕ → P → Bool} {refers : ℕ → C → Bool} {gone : ℕ → Bool}
    {ps ps' : sql.Table P} {cs : sql.Table C} where
  -- `ON DELETE CASCADE`
  pub References-cascade :
      (d : C → Bool)
      → Drops sql key gone ps ps'
      → ((k : ℕ) (c : C) → gone k ≡ true → refers k c ≡ true → d c ≡ true)
      → References sql key refers ps cs
      → References sql key refers ps' (sql.delete C d cs)
  References-cascade d drops takes refs = record {
    at = λ k h. elim (drops.at k h) [
      | inl gone_k ↦
          count-deleted_eq sql (refers k) d cs
          ∙ count-never (λ c. not (d c) && refers k c) (sql.scan C cs)
              (λ c. ground (arith, takes k c gone_k))
      | inr old ↦ omega (arith, count-deleted sql (refers k) d cs, refs.at k old)
    ];
  }

  -- `ON DELETE SET NULL`
  pub References-null :
      (d : C → Bool) (f : C → C)
      → Drops sql key gone ps ps'
      → ((k : ℕ) (c : C) → gone k ≡ true → refers k c ≡ true → d c ≡ true)
      → ((k : ℕ) (c : C) → refers k (f c) ≡ false)
      → References sql key refers ps cs
      → References sql key refers ps' (sql.update C d f cs)
  References-null d f drops takes forgets refs = record {
    at = λ k h. elim (drops.at k h) [
      | inl gone_k ↦
          count-nulled sql (refers k) d f (forgets k) cs
          ∙ count-never (λ c. not (d c) && refers k c) (sql.scan C cs)
              (λ c. ground (arith, takes k c gone_k))
      | inr old ↦ omega (
        arith,
        count-nulled sql (refers k) d f (forgets k) cs,
        count_mono (λ c. not (d c) && refers k c) (refers k) (sql.scan C cs) (λ c q. ground arith),
        refs.at k old,
      )
    ];
  }

-- A deletion by a condition leaves no row that meets it.
pub count-gone :
    (sql : Sql) {R : Type 0} (p : R → Bool) (t : sql.Table R)
    → count_where sql p (sql.delete R p t) ≡ 0
count-gone sql {R} p t =
    count-deleted_eq sql p p t
    ∙ count-never (λ x. not (p x) && p x) (sql.scan R t) (λ x. ground arith)
