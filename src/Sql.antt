-- ===== src/Sql.antt =====
-- What the repositories rely on of SQLAlchemy and PostgreSQL: tables that a statement reads and
-- writes, with the documented effect of INSERT, UPDATE and DELETE on what a SELECT counts.
pub mod ListTables
pub mod Counting
pub mod Slices
use fastapi_realtime_chat.Prelude.{
  ℕ, ◌≤◌, ◌≡◌, Bool, not, List, [], ◌∷◌, map, if◌then◌else◌, nat_eq, text_eq, filter, count,
}

abbrev pub AllAtMost : {R : Type 0} → (R → ℕ) → ℕ → List R → Type 0
AllAtMost key k [] = Unit
AllAtMost key k (r ∷ rs) = (key r ≤ k) × AllAtMost key k rs

-- No row has a greater key than one before it.
abbrev pub Descending : {R : Type 0} → (R → ℕ) → List R → Type 0
Descending key [] = Unit
Descending key (r ∷ rs) = AllAtMost key (key r) rs × Descending key rs

pub record Sql : Type 1 where
  pub Table : Type 0 → Type 0
  -- The rows of a table, in the order in which a SELECT with no ORDER BY gives them.
  pub scan : (R : Type 0) → Table R → List R
  pub insert : (R : Type 0) → R → Table R → Table R
  -- `UPDATE … SET f WHERE p`, and `DELETE … WHERE p`.
  pub update : (R : Type 0) → (R → Bool) → (R → R) → Table R → Table R
  pub delete : (R : Type 0) → (R → Bool) → Table R → Table R
  -- The rows afterwards, told by how many of them meet any condition.
  pub count-insert :
      (R : Type 0) (q : R → Bool) (r : R) (t : Table R)
      → count q (scan R (insert R r t)) ≡ count q (r ∷ scan R t)
  pub count-update :
      (R : Type 0) (q p : R → Bool) (f : R → R) (t : Table R)
      → count q (scan R (update R p f t)) ≡ count q (map (λ r. if p r then f r else r) (scan R t))
  pub count-delete :
      (R : Type 0) (q p : R → Bool) (t : Table R)
      → count q (scan R (delete R p t)) ≡ count q (filter (λ r. not (p r)) (scan R t))
  -- `ORDER BY key DESC`. One order among rows with equal keys; PostgreSQL may take another for each
  -- query.
  pub order_desc : (R : Type 0) → (R → ℕ) → List R → List R
  pub count-order_desc :
      (R : Type 0) (q : R → Bool) (key : R → ℕ) (xs : List R)
      → count q (order_desc R key xs) ≡ count q xs
  pub order_desc-Descending :
      (R : Type 0) (key : R → ℕ) (xs : List R) → Descending key (order_desc R key xs)

module _ (sql : Sql) {R : Type 0} where
  -- `select(Model).where(p)`
  abbrev pub select_where : (R → Bool) → sql.Table R → List R
  select_where p t = filter p (sql.scan R t)

  -- `select(func.count()).select_from(Model).where(p)`
  abbrev pub count_where : (R → Bool) → sql.Table R → ℕ
  count_where p t = count p (sql.scan R t)
