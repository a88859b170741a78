-- ===== src/RedisManager.antt =====
-- The one client of a process for its Redis commands: app/managers/redis_manager.py. Clients are
-- numbered in the order in which they are made.
pub mod Closing
use fastapi_realtime_chat.Prelude.{
  ℕ, suc, not, Option, none, some, List, ◌∷◌, nat_beq, nat_eq, text_eq, filter,
}

-- How many clients there have been, and those that are open.
pub record Clients : Type 0 where
  pub made : ℕ
  pub unclosed : List ℕ

-- `aioredis.from_url(…)` and `client.aclose()`
abbrev pub from_url : Clients → ℕ × Clients
from_url c = (c.made, record { made = suc c.made; unclosed = c.made ∷ c.unclosed })

abbrev pub aclose : ℕ → Clients → Clients
aclose client c = record c { unclosed = filter (λ x. not (nat_beq client x)) c.unclosed }

-- The module's global variable `_redis`, and the clients.
pub record RedisManager : Type 0 where
  pub redis : Option ℕ
  pub clients : Clients

unfoldable pub get_redis : RedisManager → ℕ × RedisManager
get_redis m = elim m.redis [
  | some client ↦ (client, m)
  | none ↦
      let (client, clients) = from_url m.clients in
      (client, record { redis = some client; clients = clients })
]

unfoldable pub close_redis : RedisManager → RedisManager
close_redis m = elim m.redis [
  | some client ↦ record { redis = none; clients = aclose client m.clients }
  | none ↦ m
]
