-- ===== src/Lifespan.antt =====
-- The life of a process, from its start to its shutdown: `lifespan` of main.py, with the client of
-- app/managers/redis_manager.py and the task of app/events/redis_subscriber.py.
pub mod Closed
use fastapi_realtime_chat.Prelude.{
  ℕ, Bool, Option, none, some, List, [], ◌∷◌, if◌then◌else◌, ◌==◌, Text, nat_eq, text_eq, any,
}
use fastapi_realtime_chat.Protocol.{Socket, Event}
use fastapi_realtime_chat.RedisManager.{RedisManager, get_redis, close_redis}
use fastapi_realtime_chat.Subscriber.{Received}
use fastapi_realtime_chat.Subscriber.Reconnect.{
  Ending, cancelled, Bridge, open_client, close_client, hear,
}

pub record Application : Type 0 where
  -- `_redis`
  pub redis : Option ℕ
  pub bridge : Bridge
  -- The client `r` of `run_subscriber`, while it is open.
  pub subscriber : Option ℕ
  pub directories : List Text

-- `Path(directory).mkdir(parents=True, exist_ok=True)`, by the path alone.
abbrev pub mkdir : Text → List Text → List Text
mkdir directory directories =
    if any (λ d. d == directory) directories then directories else directory ∷ directories

-- An operation of the Redis manager, in the application.
abbrev pub pool : Application → RedisManager
pool a = record { redis = a.redis; clients = a.bridge.clients }

abbrev pub with_pool : RedisManager → Application → Application
with_pool m a = record a { redis = m.redis; bridge = record a.bridge { clients = m.clients } }

-- What happens between start and shutdown, as far as clients are concerned, in any order: a service
-- takes the client for its commands, and the subscriber, in its loop, makes a client, receives a
-- message on it, and closes it.
pub data Activity : Type 0 where
  takes_client opens : Activity
  receives : Received → Activity
  closes : Ending → Activity

unfoldable pub startup : (upload_dir : Text) → Application → Application
startup upload_dir a = record a { directories = mkdir upload_dir a.directories }

module _ (alive : Socket → Bool) (loads : Text → Option Event) where
  -- The subscriber does what its state allows: it has one client at a time.
  unfoldable pub act : Activity → Application → Application
  act takes_client a = with_pool (get_redis (pool a)).1 a
  act opens a = elim a.subscriber [
    | none ↦ let (r, b) = open_client a.bridge in record a { bridge = b; subscriber = some r }
    | some r ↦ a
  ]
  act (receives message) a = elim a.subscriber [
    | none ↦ a
    | some r ↦ record a { bridge = hear alive loads (message ∷ []) a.bridge }
  ]
  act (closes ending) a = elim a.subscriber [
    | none ↦ a
    | some r ↦ record a { bridge = close_client r ending a.bridge; subscriber = none }
  ]

  unfoldable pub live : List Activity → Application → Application
  live [] a = a
  live (x ∷ xs) a = live xs (act x a)

  -- The subscriber is cancelled, wherever it is, and then the client of the services is closed.
  unfoldable pub shutdown : Application → Application
  shutdown a = let a' = act (closes cancelled) a in with_pool (close_redis (pool a')) a'

  unfoldable pub lifespan : (upload_dir : Text) → List Activity → Application → Application
  lifespan upload_dir xs a = shutdown (live xs (startup upload_dir a))
