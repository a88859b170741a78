-- ===== src/Sql/Counting.antt =====
-- Counting rows that meet conditions, and the queries that may find one row at most.
use fastapi_realtime_chat.Prelude.{
  ℕ, zero, suc, ◌+◌, ◌≤◌, ◌<◌, ◌≡◌, refl, ap, ◌∙◌, Bool, true, false, not, ◌&&◌, Option, none, some,
  List, [], ◌∷◌, map, arith, nat_eq, text_eq, length, filter, count, length-filter,
}
use fastapi_realtime_chat.Exec.{Result, ok, err, wrong_row_count}
use fastapi_realtime_chat.Backend.{scalar_one_or_none, scalar_one}

-- What a query for at most one row says of whether there is one, from the number of rows.
abbrev pub one_or_none : ℕ → Result Bool
one_or_none zero = ok false
one_or_none (suc zero) = ok true
one_or_none (suc (suc n)) = err wrong_row_count

module _ {R : Type 0} where
  pub count-filter :
      (q p : R → Bool) (xs : List R) → count q (filter p xs) ≡ count (λ x. p x && q x) xs
  count-filter q p [] = refl
  count-filter q p (x ∷ xs) = ground (arith, count-filter q p xs)

  pub count-ext : (q p : R → Bool) (xs : List R) → ((x : R) → q x ≡ p x) → count q xs ≡ count p xs
  count-ext q p [] h = refl
  count-ext q p (x ∷ xs) h = ground (arith, count-ext q p xs h, h x)

  pub count-map :
      {A : Type 0} (q : R → Bool) (f : A → R) (xs : List A)
      → count q (map f xs) ≡ count (λ a. q (f a)) xs
  count-map q f [] = refl
  count-map q f (x ∷ xs) = ground (arith, count-map q f xs)

  pub count-never : (q : R → Bool) (xs : List R) → ((x : R) → q x ≡ false) → count q xs ≡ 0
  count-never q [] h = refl
  count-never q (x ∷ xs) h = ground (arith, count-never q xs h, h x)

  pub count_mono :
      (q p : R → Bool) (xs : List R) → ((x : R) → q x ≡ true → p x ≡ true) → count q xs ≤ count p xs
  count_mono q p [] h = omega arith
  count_mono q p (x ∷ xs) h = ground (arith, count_mono q p xs h, h x)

  pub count-complement :
      (p : R → Bool) (xs : List R)
      → count p xs + count (λ x. not (p x) && true) xs ≡ count (λ _. true) xs
  count-complement p [] = refl
  count-complement p (x ∷ xs) = ground (arith, count-complement p xs)

  abbrev pub found : Result (Option R) → Result Bool
  found (ok none) = ok false
  found (ok (some r)) = ok true
  found (err e) = err e

  found-length : (xs : List R) → found (scalar_one_or_none xs) ≡ one_or_none (length xs)
  found-length [] = refl
  found-length (x ∷ []) = refl
  found-length (x ∷ y ∷ xs) = refl

  pub found-count :
      (p : R → Bool) (xs : List R)
      → found (scalar_one_or_none (filter p xs)) ≡ one_or_none (count p xs)
  found-count p xs = found-length (filter p xs) ∙ ap one_or_none (length-filter p xs)

-- A row that has been added to rows none of which meets a condition is the one that meets it.
abbrev is_row : {R : Type 0} → Discrete R → R → R → Bool
is_row d r x = elim (d x r) [ yes e ↦ true | no e ↦ false ]

is_row_self : {R : Type 0} (d : Discrete R) (r : R) → is_row d r r ≡ true
is_row_self d r = ground arith

only_one :
    {R : Type 0} (d : Discrete R) (r : R) (xs : List R)
    → length xs ≡ 1
    → 0 < count (is_row d r) xs
    → scalar_one xs ≡ ok r
only_one d r [] l h = absurd (omega arith)
only_one d r (x ∷ []) l h = ground arith
only_one d r (x ∷ y ∷ xs) l h = absurd (omega arith)

pub only_row :
    {R : Type 0} (d : Discrete R) (p : R → Bool) (r : R) (xs ys : List R)
    → ((q : R → Bool) → count q ys ≡ count q (r ∷ xs))
    → p r ≡ true
    → count p xs ≡ 0
    → scalar_one (filter p ys) ≡ ok r
only_row d p r xs ys same h absent =
    only_one d r (filter p ys) (length-filter p ys ∙ same p ∙ ground arith) (
      ground
        (arith, count-filter (is_row d r) p ys, same (λ x. p x && is_row d r x), is_row_self d r))
