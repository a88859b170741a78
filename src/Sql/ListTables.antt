-- ===== src/Sql/ListTables.antt =====
-- Tables as lists of rows: the interface can be met.
use fastapi_realtime_chat.Prelude.{
  ℕ, ◌≤◌, ◌≡◌, refl, Bool, not, List, [], ◌∷◌, ◌++◌, map, arith, leb, if◌then◌else◌, nat_eq,
  text_eq, filter, count, count-append,
}
use fastapi_realtime_chat.Sql.{Sql, AllAtMost, Descending}

pub count-snoc :
    {R : Type 0} (q : R → Bool) (r : R) (t : List R) → count q (t ++ r ∷ []) ≡ count q (r ∷ t)
count-snoc q r t = omega (arith, count-append q t (r ∷ []))

module _ {R : Type 0} (key : R → ℕ) where
  unfoldable pub place : R → List R → List R
  place r [] = r ∷ []
  place r (x ∷ xs) = if leb (key x) (key r) then r ∷ x ∷ xs else x ∷ place r xs

  unfoldable pub sort : List R → List R
  unfolding place
  sort [] = []
  sort (x ∷ xs) = place x (sort xs)

  count-place : (q : R → Bool) (r : R) (xs : List R) → count q (place r xs) ≡ count q (r ∷ xs)
  unfolding place
  count-place q r [] = refl
  count-place q r (x ∷ xs) = ground (arith, count-place q r xs)

  pub count-sort : (q : R → Bool) (xs : List R) → count q (sort xs) ≡ count q xs
  unfolding sort
  count-sort q [] = refl
  count-sort q (x ∷ xs) = ground (arith, count-place q x (sort xs), count-sort q xs)

  AllAtMost-mono : (k l : ℕ) (xs : List R) → k ≤ l → AllAtMost key k xs → AllAtMost key l xs
  AllAtMost-mono k l [] h a = tt
  AllAtMost-mono k l (x ∷ xs) h a = (omega arith, AllAtMost-mono k l xs h a.1)

  AllAtMost-place :
      (k : ℕ) (r : R) (xs : List R) → key r ≤ k → AllAtMost key k xs → AllAtMost key k (place r xs)
  unfolding place
  AllAtMost-place k r [] h a = (h, tt)
  AllAtMost-place k r (x ∷ xs) h a = ground (arith, AllAtMost-place k r xs h a.1)

  Descending-place : (r : R) (xs : List R) → Descending key xs → Descending key (place r xs)
  unfolding place
  Descending-place r [] d = (tt, tt)
  Descending-place r (x ∷ xs) d = ground (
    arith,
    AllAtMost-mono (key x) (key r) xs,
    AllAtMost-place (key x) r xs,
    Descending-place r xs d.1,
  )

  pub sort-Descending : (xs : List R) → Descending key (sort xs)
  unfolding sort
  sort-Descending [] = tt
  sort-Descending (x ∷ xs) = Descending-place x (sort xs) (sort-Descending xs)

abbrev pub list_tables : Sql
list_tables = record {
  Table = List;
  scan = λ R t. t;
  insert = λ R r t. t ++ r ∷ [];
  update = λ R p f t. map (λ r. if p r then f r else r) t;
  delete = λ R p t. filter (λ r. not (p r)) t;
  count-insert = λ R q r t. count-snoc q r t;
  count-update = λ R q p f t. refl;
  count-delete = λ R q p t. refl;
  order_desc = λ R key xs. sort key xs;
  count-order_desc = λ R q key xs. count-sort key q xs;
  order_desc-Descending = λ R key xs. sort-Descending key xs;
}
