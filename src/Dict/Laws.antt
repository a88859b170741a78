-- ===== src/Dict/Laws.antt =====
-- Lookups after the operations of a dictionary.
use fastapi_realtime_chat.Prelude.{none, some, [], ◌∷◌, ◌≡◌, arith, Eq, ◌==◌, if◌then◌else◌}
use fastapi_realtime_chat.Dict.{Dict, get, get_or, pop, modify, put}

module _ {ℓ κ} {K : Type ℓ} {V : Type κ} ⦃e : Eq K⦄ where
  pub get-pop : (k j : K) (d : Dict K V) → get j (pop k d) ≡ (if k == j then none else get j d)
  unfolding get pop
  get-pop k j [] = ground arith
  get-pop k j ((i, v) ∷ d) =
      ground (arith, get-pop k j d, e.beq_iff i k, e.beq_iff i j, e.beq_iff k j)

  pub get-modify :
      (v₀ : V) (k j : K) (f : V → V) (d : Dict K V)
      → get j (modify v₀ k f d) ≡ (if k == j then some (f (get_or v₀ k d)) else get j d)
  unfolding get modify get_or
  get-modify v₀ k j f [] = ground arith
  get-modify v₀ k j f ((i, v) ∷ d) =
      ground (arith, get-modify v₀ k j f d, e.beq_iff i k, e.beq_iff i j, e.beq_iff k j)

  pub get_or-pop :
      (v₀ : V) (k j : K) (d : Dict K V)
      → get_or v₀ j (pop k d) ≡ (if k == j then v₀ else get_or v₀ j d)
  unfolding get_or
  get_or-pop v₀ k j d = ground (arith, get-pop k j d)

  pub get_or-modify :
      (v₀ : V) (k j : K) (f : V → V) (d : Dict K V)
      → get_or v₀ j (modify v₀ k f d) ≡ (if k == j then f (get_or v₀ k d) else get_or v₀ j d)
  unfolding get_or
  get_or-modify v₀ k j f d = ground (arith, get-modify v₀ k j f d)

  pub get-put :
      (k j : K) (v : V) (d : Dict K V) → get j (put k v d) ≡ (if k == j then some v else get j d)
  unfolding put
  get-put k j v d = get-modify v k j (λ _. v) d

pub ruleset dict_laws = (get-pop, get-modify, get_or-pop, get_or-modify, get-put)
