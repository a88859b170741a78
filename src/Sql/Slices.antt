-- ===== src/Sql/Slices.antt =====
-- LIMIT and OFFSET of a list of rows.
use fastapi_realtime_chat.Prelude.{
  ℕ, zero, suc, ◌+◌, ◌≤◌, ◌<◌, ◌≡◌, refl, sym, ap, ◌∙◌, true, List, [], ◌∷◌, ◌++◌, map, arith, ltb,
  leb, if◌then◌else◌, nat_eq, text_eq, length, take, drop, count,
}
use fastapi_realtime_chat.Sql.{AllAtMost, Descending}

module _ {A : Type 0} where
  pub take-nil : (k : ℕ) → take {A = A} k [] ≡ []
  take-nil zero = refl
  take-nil (suc k) = refl

  pub length-count : (xs : List A) → length xs ≡ count (λ _. true) xs
  length-count [] = refl
  length-count (x ∷ xs) = omega (arith, length-count xs)

  pub take-take-drop : (n k : ℕ) (xs : List A) → take n xs ++ take k (drop n xs) ≡ take (n + k) xs
  take-take-drop zero k xs = let e : zero + k ≡ k = omega arith in rw e
  take-take-drop (suc n) k [] = take-nil k ∙ sym (take-nil (suc n + k))
  take-take-drop (suc n) k (x ∷ xs) =
      let e : suc n + k ≡ suc (n + k) = omega arith in rw e (ap (◌∷◌ x) (take-take-drop n k xs))

  pub take_all : (n : ℕ) (xs : List A) → length xs ≤ n → take n xs ≡ xs
  take_all zero [] h = refl
  take_all zero (x ∷ xs) h = absurd (omega arith)
  take_all (suc n) [] h = refl
  take_all (suc n) (x ∷ xs) h = ap (◌∷◌ x) (take_all n xs (omega arith))

  pub length-take-drop :
      (k n : ℕ) (xs : List A) → 0 < k → ltb 0 (length (take k (drop n xs))) ≡ ltb n (length xs)
  length-take-drop (suc k) zero [] h = refl
  length-take-drop (suc k) zero (x ∷ xs) h = ground arith
  length-take-drop (suc k) (suc n) [] h = ground arith
  length-take-drop (suc k) (suc n) (x ∷ xs) h = ground (arith, length-take-drop (suc k) n xs)
  length-take-drop zero n xs h = absurd (omega arith)

  pub length-take-le : (k : ℕ) (xs : List A) → length (take k xs) ≤ k
  length-take-le zero xs = omega arith
  length-take-le (suc k) [] = omega arith
  length-take-le (suc k) (x ∷ xs) = omega (arith, length-take-le k xs)

  pub AllAtMost-take :
      (key : A → ℕ) (k n : ℕ) (xs : List A) → AllAtMost key k xs → AllAtMost key k (take n xs)
  AllAtMost-take key k zero xs h = tt
  AllAtMost-take key k (suc n) [] h = tt
  AllAtMost-take key k (suc n) (x ∷ xs) h = (h.0, AllAtMost-take key k n xs h.1)

  pub Descending-take :
      (key : A → ℕ) (n : ℕ) (xs : List A) → Descending key xs → Descending key (take n xs)
  Descending-take key zero xs h = tt
  Descending-take key (suc n) [] h = tt
  Descending-take key (suc n) (x ∷ xs) h =
      (AllAtMost-take key (key x) n xs h.0, Descending-take key n xs h.1)

  pub length-take :
      (n : ℕ) (xs : List A) → length (take n xs) ≡ (if leb (length xs) n then length xs else n)
  length-take zero [] = refl
  length-take zero (x ∷ xs) = ground arith
  length-take (suc n) [] = ground arith
  length-take (suc n) (x ∷ xs) = ground (arith, length-take n xs)

module _ {A B : Type 0} (f : A → B) where
  pub length-map : (xs : List A) → length (map f xs) ≡ length xs
  length-map [] = refl
  length-map (x ∷ xs) = ap suc (length-map xs)

  AllAtMost-map :
      (key : B → ℕ) (k : ℕ) (xs : List A)
      → AllAtMost (λ x. key (f x)) k xs
      → AllAtMost key k (map f xs)
  AllAtMost-map key k [] h = tt
  AllAtMost-map key k (x ∷ xs) h = (h.0, AllAtMost-map key k xs h.1)

  pub Descending-map :
      (key : B → ℕ) (xs : List A) → Descending (λ x. key (f x)) xs → Descending key (map f xs)
  Descending-map key [] h = tt
  Descending-map key (x ∷ xs) h = (AllAtMost-map key (key (f x)) xs h.0, Descending-map key xs h.1)
