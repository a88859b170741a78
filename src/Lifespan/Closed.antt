-- ===== src/Lifespan/Closed.antt =====
-- What is open while a process of main.py lives, and after its shutdown.
use fastapi_realtime_chat.Prelude.{
  ℕ, filter, ◌<◌, ◌≡◌, refl, ◌⊎◌, inl, inr, Bool, true, not, Option, none, some, List, [], ◌∷◌,
  ◌++◌, arith, nat_beq, nat_beq_iff, Option-cases, Text, nat_eq, text_eq,
}
use fastapi_realtime_chat.Protocol.{Socket, Event}
use fastapi_realtime_chat.RedisManager.{get_redis, close_redis}
use fastapi_realtime_chat.Subscriber.{Received}
use fastapi_realtime_chat.Subscriber.Reconnect.{Ending, cancelled, Bridge}
use fastapi_realtime_chat.Lifespan.{
  Application, Activity, takes_client, opens, receives, closes, act, live, startup, shutdown,
  lifespan, pool, with_pool,
}

abbrev pub only_client : Option ℕ → List ℕ
only_client none = []
only_client (some client) = client ∷ []

-- The open clients are that of the subscriber and that of the services, each if there is one.
abbrev pub OnlyTwo : List ℕ → (subscriber redis : Option ℕ) → Type 0
OnlyTwo unclosed subscriber redis =
    (unclosed ≡ only_client subscriber ++ only_client redis)
    ⊎ (unclosed ≡ only_client redis ++ only_client subscriber)

abbrev MadeBefore : ℕ → Option ℕ → Type 0
MadeBefore n none = Unit
MadeBefore n (some client) = client < n

abbrev apart : Option ℕ → Option ℕ → Bool
apart none redis = true
apart (some r) none = true
apart (some r) (some client) = not (nat_beq r client)

record Opened (a : Application) : Type 0 where
  only : OnlyTwo a.bridge.clients.unclosed a.subscriber a.redis
  subscriber_made : MadeBefore a.bridge.clients.made a.subscriber
  redis_made : MadeBefore a.bridge.clients.made a.redis
  different : apart a.subscriber a.redis ≡ true

without_subscriber :
    (unclosed : List ℕ) (r : ℕ) (redis : Option ℕ)
    → OnlyTwo unclosed (some r) redis
    → apart (some r) redis ≡ true
    → OnlyTwo (filter (λ x. not (nat_beq r x)) unclosed) none redis
without_subscriber unclosed r none h different = ground (arith, nat_beq_iff r r)
without_subscriber unclosed r (some client) h different = ground (arith, nat_beq_iff r r)

abbrev with_clients : (redis subscriber : Option ℕ) → Bridge → List Text → Application
with_clients redis subscriber b directories = record {
  redis = redis;
  bridge = b;
  subscriber = subscriber;
  directories = directories;
}

module _ (alive : Socket → Bool) (loads : Text → Option Event) where
  Opened-takes_client :
      (redis subscriber : Option ℕ) (b : Bridge) (directories : List Text)
      → Opened (with_clients redis subscriber b directories)
      → Opened (act alive loads takes_client (with_clients redis subscriber b directories))
  unfolding act get_redis
  Opened-takes_client (some client) subscriber b directories h = h
  Opened-takes_client none none b directories h = record {
    only = ground (arith, h.only);
    subscriber_made = tt;
    redis_made = omega arith;
    different = refl;
  }
  Opened-takes_client none (some r) b directories h = record {
    only = ground (arith, h.only);
    subscriber_made = omega (arith, h.subscriber_made);
    redis_made = omega arith;
    different = ground (arith, h.subscriber_made);
  }

  Opened-opens :
      (redis subscriber : Option ℕ) (b : Bridge) (directories : List Text)
      → Opened (with_clients redis subscriber b directories)
      → Opened (act alive loads opens (with_clients redis subscriber b directories))
  unfolding act
  Opened-opens redis (some r) b directories h = h
  Opened-opens none none b directories h = record {
    only = ground (arith, h.only);
    subscriber_made = omega arith;
    redis_made = tt;
    different = refl;
  }
  Opened-opens (some client) none b directories h = record {
    only = ground (arith, h.only);
    subscriber_made = omega arith;
    redis_made = omega (arith, h.redis_made);
    different = ground (arith, h.redis_made);
  }

  Opened-receives :
      (message : Received) (redis subscriber : Option ℕ) (b : Bridge) (directories : List Text)
      → Opened (with_clients redis subscriber b directories)
      → Opened (act alive loads (receives message) (with_clients redis subscriber b directories))
  unfolding act
  Opened-receives message redis none b directories h = h
  Opened-receives message redis (some r) b directories h = record {
    only = h.only;
    subscriber_made = h.subscriber_made;
    redis_made = h.redis_made;
    different = h.different;
  }

  Opened-closes :
      (ending : Ending) (redis subscriber : Option ℕ) (b : Bridge) (directories : List Text)
      → Opened (with_clients redis subscriber b directories)
      → let a' = act alive loads (closes ending) (with_clients redis subscriber b directories) in
        Opened a' × (a'.subscriber ≡ none)
  unfolding act
  Opened-closes ending redis none b directories h = (h, refl)
  Opened-closes ending redis (some r) b directories h = (
    record {
      only = without_subscriber b.clients.unclosed r redis h.only h.different;
      subscriber_made = tt;
      redis_made = h.redis_made;
      different = refl;
    },
    refl,
  )

  Opened-act : (x : Activity) (a : Application) → Opened a → Opened (act alive loads x a)
  Opened-act takes_client a h = Opened-takes_client a.redis a.subscriber a.bridge a.directories h
  Opened-act opens a h = Opened-opens a.redis a.subscriber a.bridge a.directories h
  Opened-act (receives message) a h =
      Opened-receives message a.redis a.subscriber a.bridge a.directories h
  Opened-act (closes ending) a h =
      (Opened-closes ending a.redis a.subscriber a.bridge a.directories h).0

  Opened-live : (xs : List Activity) (a : Application) → Opened a → Opened (live alive loads xs a)
  unfolding live
  Opened-live [] a h = h
  Opened-live (x ∷ xs) a h = Opened-live xs (act alive loads x a) (Opened-act x a h)

  pool_closed :
      (a : Application)
      → Opened a
      → a.subscriber ≡ none
      → let a' = with_pool (close_redis (pool a)) a in
        (a'.bridge.clients.unclosed ≡ []) × (a'.redis ≡ none)
  unfolding close_redis
  pool_closed a h gone = elim (Option-cases a.redis) [
    | inl e ↦ ground (arith, h.only)
    | inr (c, e) ↦ ground (arith, h.only, nat_beq_iff c c)
  ]

  -- A process that starts with no client: in every order in which its services take the client and
  -- its subscriber makes its own, receives, loses the connection and makes another, the open clients
  -- are the one that the subscriber has and the one of the services, each if there is one; after the
  -- shutdown, wherever that finds the subscriber, none is open.
  pub lifespan_closes :
      (upload_dir : Text) (xs : List Activity) (a : Application)
      → a.redis ≡ none
      → a.subscriber ≡ none
      → a.bridge.clients.unclosed ≡ []
      → let living = live alive loads xs (startup upload_dir a) in
        let over = lifespan alive loads upload_dir xs a in
        OnlyTwo living.bridge.clients.unclosed living.subscriber living.redis
        × (over.bridge.clients.unclosed ≡ [])
        × (over.redis ≡ none)
  unfolding lifespan shutdown startup
  lifespan_closes upload_dir xs a no_redis no_subscriber h =
      let living = Opened-live xs (startup upload_dir a) (record {
        only = rw (no_redis, no_subscriber) (inl h);
        subscriber_made = rw no_subscriber tt;
        redis_made = rw no_redis tt;
        different = rw no_subscriber refl;
      }) in
      let a' = live alive loads xs (startup upload_dir a) in
      let (closed, gone) =
        Opened-closes cancelled a'.redis a'.subscriber a'.bridge a'.directories living in
      let (none_open, forgotten) =
        pool_closed (act alive loads (closes cancelled) a') closed gone in
      (living.only, none_open, forgotten)
