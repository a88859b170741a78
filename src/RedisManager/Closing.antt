-- ===== src/RedisManager/Closing.antt =====
-- Which clients of app/managers/redis_manager.py are left open.
use fastapi_realtime_chat.Prelude.{
  ℕ, suc, ◌<◌, ◌≡◌, refl, not, List, [], ◌∷◌, arith, nat_beq, nat_eq, text_eq, filter,
}
use fastapi_realtime_chat.RedisManager.{Clients, from_url, aclose}

-- Every open client was made before.
abbrev pub AreMade : ℕ → List ℕ → Type 0
AreMade n [] = Unit
AreMade n (x ∷ xs) = (x < n) × AreMade n xs

pub AreMade-suc : (n : ℕ) (xs : List ℕ) → AreMade n xs → AreMade (suc n) xs
AreMade-suc n [] h = tt
AreMade-suc n (x ∷ xs) h = (omega (arith, h.0), AreMade-suc n xs h.1)

-- To close a client that is not among the open ones changes nothing.
pub filter_new : (n : ℕ) (xs : List ℕ) → AreMade n xs → filter (λ x. not (nat_beq n x)) xs ≡ xs
filter_new n [] h = refl
filter_new n (x ∷ xs) h = ground (arith, filter_new n xs h.1, h.0)

-- A client that is made and closed leaves the open ones as they were.
pub aclose-from_url :
    (c : Clients) → AreMade c.made c.unclosed → (aclose c.made (from_url c).1).unclosed ≡ c.unclosed
aclose-from_url c h = ground (arith, filter_new c.made c.unclosed h)
