-- ===== src/Dict/Distinct.antt =====
-- The keys of a dictionary are distinct, and how many entries it has.
use fastapi_realtime_chat.Prelude.{
  ◌+◌, ◌≡◌, refl, none, [], ◌∷◌, arith, if◌then◌else◌, is_some, Eq, nat_eq, text_eq, length,
}
use fastapi_realtime_chat.Dict.{Dict, get, pop, modify, put}
use fastapi_realtime_chat.Dict.Laws.{get-pop, get-modify}

module _ {ℓ κ} {K : Type ℓ} {V : Type κ} ⦃e : Eq K⦄ where
  -- No key of an entry stands again behind it.
  abbrev pub Distinct : Dict K V → Type κ
  Distinct [] = Unit
  Distinct ((k, v) ∷ d) = (get k d ≡ none) × Distinct d

  pub Distinct-pop : (k : K) (d : Dict K V) → Distinct d → Distinct (pop k d)
  unfolding pop
  Distinct-pop k [] h = tt
  Distinct-pop k ((j, v) ∷ d) h = ground (arith, Distinct-pop k d h.1, get-pop k j d)

  pub Distinct-modify :
      (v₀ : V) (k : K) (f : V → V) (d : Dict K V) → Distinct d → Distinct (modify v₀ k f d)
  unfolding modify get
  Distinct-modify v₀ k f [] h = (refl, tt)
  Distinct-modify v₀ k f ((j, v) ∷ d) h =
      ground
        (arith, Distinct-modify v₀ k f d h.1, get-modify v₀ k j f d, e.beq_iff j k, e.beq_iff k j)

  pub Distinct-put : (k : K) (v : V) (d : Dict K V) → Distinct d → Distinct (put k v d)
  unfolding put
  Distinct-put k v d h = Distinct-modify v k (λ _. v) d h

  -- Popping a key that is missing changes nothing.
  pub pop_missing : (k : K) (d : Dict K V) → get k d ≡ none → pop k d ≡ d
  unfolding pop get
  pop_missing k [] h = refl
  pop_missing k ((j, v) ∷ d) h = ground (arith, pop_missing k d)

  pub length-put :
      (k : K) (v : V) (d : Dict K V)
      → length (put k v d) ≡ (if is_some (get k d) then length d else length d + 1)
  unfolding put modify get
  length-put k v [] = omega arith
  length-put k v ((j, w) ∷ d) = ground (arith, length-put k v d)

  pub length-pop :
      (k : K) (d : Dict K V)
      → Distinct d
      → length d ≡ (if is_some (get k d) then length (pop k d) + 1 else length (pop k d))
  unfolding pop get
  length-pop k [] h = refl
  length-pop k ((j, w) ∷ d) h = ground (arith, length-pop k d h.1, e.beq_iff j k, pop_missing k d)
