-- ===== src/Dict.antt =====
-- Python's `dict` and `defaultdict`: entries in insertion order, one for each key.
pub mod Laws
pub mod Distinct
use fastapi_realtime_chat.Prelude.{Option, none, some, List, [], ◌∷◌, map, Eq, ◌==◌, if◌then◌else◌}

abbrev pub Dict {ℓ κ} : Type ℓ → Type κ → Type (ℓ ⊔ κ)
Dict K V = List (K × V)

module _ {ℓ κ} {K : Type ℓ} {V : Type κ} ⦃e : Eq K⦄ where
  -- `d.get(k)`
  unfoldable pub get : K → Dict K V → Option V
  get k [] = none
  get k ((j, v) ∷ d) = if j == k then some v else get k d

  -- `d.get(k, default)`
  unfoldable pub get_or : V → K → Dict K V → V
  unfolding get
  get_or v₀ k d = elim (get k d) [ none ↦ v₀ | some v ↦ v ]

  -- `d.pop(k, None)` and `del d[k]`
  unfoldable pub pop : K → Dict K V → Dict K V
  pop k [] = []
  pop k ((j, v) ∷ d) = let rest = pop k d in if j == k then rest else (j, v) ∷ rest

  -- `d[k] = f(d[k])` on a `defaultdict`: a key that is missing is entered last, with the default.
  unfoldable pub modify : V → K → (V → V) → Dict K V → Dict K V
  modify v₀ k f [] = (k, f v₀) ∷ []
  modify v₀ k f ((j, v) ∷ d) = if j == k then (j, f v) ∷ d else (j, v) ∷ modify v₀ k f d

  -- `d[k] = v`
  unfoldable pub put : K → V → Dict K V → Dict K V
  unfolding modify
  put k v d = modify v k (λ _. v) d

abbrev pub keys {ℓ κ} : {K : Type ℓ} {V : Type κ} → Dict K V → List K
keys = map (λ e. e.0)

abbrev pub values {ℓ κ} : {K : Type ℓ} {V : Type κ} → Dict K V → List V
values = map (λ e. e.1)
