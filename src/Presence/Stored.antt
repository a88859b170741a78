-- ===== src/Presence/Stored.antt =====
-- What Redis has under the presence keys, then and later, after the operations of
-- app/services/presence_service.py.
use fastapi_realtime_chat.Prelude.{
  ℕ, ◌<◌, ◌≡◌, refl, true, Option, none, some, [], ◌∷◌, ◌++◌, arith, ltb, nat_beq_iff,
  if◌then◌else◌, ◌==◌, Text, codes, nat_eq, text_eq,
}
use fastapi_realtime_chat.Sql.{Sql}
use fastapi_realtime_chat.Redis.{Redis}
use fastapi_realtime_chat.Backend.{Backend}
use fastapi_realtime_chat.Presence.{
  TtlSettings, presence_key, set_online, set_offline, refresh_presence,
}

pub append-beq : (p a b : Text) → ((p ++ a) == (p ++ b)) ≡ (a == b)
append-beq [] a b = refl
append-beq (c ∷ p) a b = ground (arith, append-beq p a b, nat_beq_iff c c)

module _ {sql : Sql} {redis : Redis} where
  -- The name that is stored for a user some seconds later, if nothing happens before.
  abbrev pub stored : Text → ℕ → Backend sql redis → Option Text
  stored v d s = redis.get (presence_key v) (redis.later d s.store)

  module _ (settings : TtlSettings) where
    module _ (positive : 0 < settings.presence_ttl_seconds) (u name : Text) (s : Backend sql redis)
        (up : s.redis_up ≡ true) (v : Text) (d : ℕ) where
      pub stored-set_online : stored v d (set_online settings u name s).1 ≡ (
          if u == v
          then (if ltb d settings.presence_ttl_seconds then some name else none)
          else stored v d s)
      unfolding set_online
      stored-set_online = ground (
        arith,
        redis.get-later-setex d (presence_key v) (presence_key u) settings.presence_ttl_seconds name
            s.store positive,
        append-beq (codes "presence:") u v,
      )

      pub stored-refresh : stored v d (refresh_presence settings u name s).1 ≡ (
          if u == v
          then (if ltb d settings.presence_ttl_seconds then some name else none)
          else stored v d s)
      unfolding refresh_presence
      stored-refresh = ground (
        arith,
        redis.get-later-setex d (presence_key v) (presence_key u) settings.presence_ttl_seconds name
            s.store positive,
        append-beq (codes "presence:") u v,
      )

    module _ (u name : Text) (s : Backend sql redis) (up : s.redis_up ≡ true) where
      pub up-set_online : (set_online settings u name s).1.redis_up ≡ true
      unfolding set_online
      up-set_online = ground arith

      pub up-refresh : (refresh_presence settings u name s).1.redis_up ≡ true
      unfolding refresh_presence
      up-refresh = ground arith

  module _ (u name : Text) (s : Backend sql redis) (up : s.redis_up ≡ true) where
    pub stored-set_offline :
        (v : Text) (d : ℕ)
        → stored v d (set_offline u name s).1 ≡ (if u == v then none else stored v d s)
    unfolding set_offline
    stored-set_offline v d = ground (
      arith,
      redis.get-later-del d (presence_key v) (presence_key u) s.store,
      append-beq (codes "presence:") u v,
    )

    pub up-set_offline : (set_offline u name s).1.redis_up ≡ true
    unfolding set_offline
    up-set_offline = ground arith
