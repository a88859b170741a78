-- ===== src/Redis/KeyList.antt =====
-- A Redis on a list of keys with the seconds they have left.
use fastapi_realtime_chat.Prelude.{
  ℕ, ◌+◌, ◌-◌, ◌<◌, ◌≡◌, refl, ap, inl, inr, true, not, ◌&&◌, Option, none, some, List, [], ◌∷◌,
  arith, ltb, if◌then◌else◌, Bool-cases, is_some, ◌==◌, Text, text_beq_iff, nat_eq, text_eq,
  strip_prefix, filter, count,
}
use fastapi_realtime_chat.Redis.{Redis}

abbrev pub Entry : Type 0
Entry = Text × (ℕ × Text)

unfoldable pub del : Text → List Entry → List Entry
del k = filter (λ e. not (k == e.0))

unfoldable pub get : Text → List Entry → Option Text
get j [] = none
get j ((k, (t, v)) ∷ s) =
    let rest = get j s in if k == j then (if ltb 0 t then some v else none) else rest

unfoldable pub later : ℕ → List Entry → List Entry
later n [] = []
later n ((k, (t, v)) ∷ s) = (k, (t - n, v)) ∷ later n s

unfoldable pub keys : Text → List Entry → List Text
keys prefix [] = []
keys prefix ((k, (t, v)) ∷ s) =
    let rest = filter (λ x. not (k == x)) (keys prefix s) in
    if is_some (strip_prefix prefix k) && ltb 0 t then k ∷ rest else rest

text_eq_of : (k j : Text) → (k == j) ≡ true → k ≡ j
text_eq_of k j = (text_beq_iff k j).0

same_key : (k x j : Text) → (x == j) ≡ true → (k == x) ≡ (k == j)
same_key k x j h = ap (λ z. k == z) (text_eq_of x j h)

count-filter :
    (k j : Text) (xs : List Text)
    → count (λ x. x == j) (filter (λ x. not (k == x)) xs)
      ≡ (if k == j then 0 else count (λ x. x == j) xs)
count-filter k j [] = ground arith
count-filter k j (x ∷ xs) =
    let ih = count-filter k j xs in
    elim (Bool-cases (x == j)) [
      | inl e ↦ ground (arith, ih, same_key k x j e)
      | inr e ↦ ground (arith, ih)
    ]

pub get-later-del :
    (n : ℕ) (j k : Text) (s : List Entry)
    → get j (later n (del k s)) ≡ (if k == j then none else get j (later n s))
unfolding del get later
get-later-del n j k [] = ground arith
get-later-del n j k ((x, (t, v)) ∷ s) =
    let ih = get-later-del n j k s in
    elim (Bool-cases (x == j)) [
      | inl e ↦ ground (arith, ih, same_key k x j e)
      | inr e ↦ ground (arith, ih)
    ]

pub later_zero : (j : Text) (s : List Entry) → get j (later 0 s) ≡ get j s
unfolding get later
later_zero j [] = refl
later_zero j ((k, (t, v)) ∷ s) = ground (arith, later_zero j s)

pub later-later :
    (n m : ℕ) (j : Text) (s : List Entry) → get j (later n (later m s)) ≡ get j (later (m + n) s)
unfolding get later
later-later n m j [] = refl
later-later n m j ((k, (t, v)) ∷ s) = ground (arith, later-later n m j s)

pub count-keys :
    (prefix j : Text) (s : List Entry)
    → count (λ k. k == j) (keys prefix s)
      ≡ (if is_some (strip_prefix prefix j) && is_some (get j s) then 1 else 0)
unfolding keys get
count-keys prefix j [] = ground arith
count-keys prefix j ((k, (t, v)) ∷ s) =
    let ih = count-keys prefix j s in
    let others = count-filter k j (keys prefix s) in
    elim (Bool-cases (k == j)) [
      | inl e ↦ ground (arith, ih, others, ap (strip_prefix prefix) (text_eq_of k j e))
      | inr e ↦ ground (arith, ih, others)
    ]

pub get-later-setex :
    (n : ℕ) (j k : Text) (seconds : ℕ) (v : Text) (s : List Entry)
    → 0 < seconds
    → get j (later n ((k, (seconds, v)) ∷ del k s))
      ≡ (if k == j then (if ltb n seconds then some v else none) else get j (later n s))
unfolding get later
get-later-setex n j k seconds v s h = ground (arith, get-later-del n j k s)

abbrev pub key_list : Redis
key_list = record {
  Store = List Entry;
  setex = λ k t v s. (k, (t, v)) ∷ del k s;
  del = del;
  get = get;
  keys = keys;
  later = later;
  get-later-setex = get-later-setex;
  get-later-del = get-later-del;
  get-later_zero = later_zero;
  get-later-later = later-later;
  count-keys = count-keys;
}
