-- ===== src/Presence/Heartbeat.antt =====
-- How long a user is seen online, by app/services/presence_service.py, and typing.
use fastapi_realtime_chat.Prelude.{
  ℕ, zero, suc, ◌<◌, ◌≡◌, ◌∙◌, inl, inr, true, false, none, some, arith, ltb, if◌then◌else◌,
  Bool-cases, ◌==◌, Text, nat_eq, text_eq, beq_refl,
}
use fastapi_realtime_chat.Exec.{ok}
use fastapi_realtime_chat.Sql.{Sql}
use fastapi_realtime_chat.Redis.{Redis}
use fastapi_realtime_chat.Backend.{Backend}
use fastapi_realtime_chat.Presence.{
  TtlSettings, presence_key, typing_key, set_online, set_offline, refresh_presence, is_online,
  start_typing, stop_typing,
}
use fastapi_realtime_chat.Presence.Stored.{
  stored-set_online, stored-refresh, stored-set_offline, up-set_online, up-refresh, up-set_offline,
}

module _ {sql : Sql} {redis : Redis} where
  -- Time that passes between two tasks of the process.
  abbrev pub wait : ℕ → Backend sql redis → Backend sql redis
  wait seconds s = record s { store = redis.later seconds s.store }

  module _ (settings : TtlSettings) (u name : Text) where
    -- `_heartbeat` of the WebSocket router: it sleeps, then refreshes, again and again.
    unfoldable pub beats : (interval : ℕ) → ℕ → Backend sql redis → Backend sql redis
    beats interval zero s = s
    beats interval (suc k) s =
        (refresh_presence settings u name (wait interval (beats interval k s))).1

  module _ (settings : TtlSettings) (positive : 0 < settings.presence_ttl_seconds)
      (u name : Text) where
    beats-up :
        (interval k : ℕ) (s : Backend sql redis)
        → s.redis_up ≡ true
        → (beats settings u name interval k s).redis_up ≡ true
    unfolding beats
    beats-up interval zero s up = up
    beats-up interval (suc k) s up =
        up-refresh settings u name (wait interval (beats settings u name interval k s))
          (beats-up interval k s up)

    -- After `set_online` and any number of heartbeats Redis has the name for the time to live.
    pub name_until :
        (interval k d : ℕ) (s : Backend sql redis)
        → s.redis_up ≡ true
        → redis.get
            (presence_key u)
            (wait d (beats settings u name interval k (set_online settings u name s).1)).store
          ≡ (if ltb d settings.presence_ttl_seconds then some name else none)
    unfolding beats
    name_until interval zero d s up =
        stored-set_online settings positive u name s up u d ∙ ground (arith, beq_refl {A = Text} u)
    name_until interval (suc k) d s up =
        let last =
          wait interval (beats settings u name interval k (set_online settings u name s).1) in
        stored-refresh settings positive u name last
          (beats-up interval k (set_online settings u name s).1
            (up-set_online settings u name s up))
          u d
        ∙ ground (arith, beq_refl {A = Text} u)

    pub up_until :
        (interval k : ℕ) (s : Backend sql redis)
        → s.redis_up ≡ true
        → (beats settings u name interval k (set_online settings u name s).1).redis_up ≡ true
    unfolding set_online
    up_until interval k s up = beats-up interval k (set_online settings u name s).1 (ground arith)

    -- With Redis up and a time to live above zero, after `set_online` and any number of
    -- heartbeats the user is seen online for exactly the time to live after the last of them.
    pub online_until :
        (interval k d : ℕ) (s : Backend sql redis)
        → s.redis_up ≡ true
        → (is_online u
            (wait d (beats settings u name interval k (set_online settings u name s).1))).0
          ≡ ok (ltb d settings.presence_ttl_seconds)
    unfolding is_online
    online_until interval k d s up =
        ground (arith, name_until interval k d s up, up_until interval k s up)

    -- A heartbeat does not touch the presence of another user.
    pub is_online-refresh_other :
        (v : Text) (d : ℕ) (s : Backend sql redis)
        → (u == v) ≡ false
        → (is_online v (wait d (refresh_presence settings u name s).1)).0
          ≡ (is_online v (wait d s)).0
    unfolding is_online refresh_presence
    is_online-refresh_other v d s other = elim (Bool-cases s.redis_up) [
      | inl up ↦ ground (arith, stored-refresh settings positive u name s up v d)
      | inr down ↦ ground arith
    ]

  -- With Redis up, after `set_offline` the user is not seen online at any later time; other users
  -- are seen as before.
  pub set_offline-offline :
      (u name v : Text) (d : ℕ) (s : Backend sql redis)
      → s.redis_up ≡ true
      → (is_online v (wait d (set_offline u name s).1)).0
        ≡ (if u == v then ok false else (is_online v (wait d s)).0)
  unfolding is_online
  set_offline-offline u name v d s up =
      ground (arith, stored-set_offline u name s up v d, up-set_offline u name s up)

  -- With Redis up and a time to live above zero, a typing indicator is stored for exactly its
  -- time to live, with no stop event, and a stop event removes it at once.
  pub typing_until :
      (settings : TtlSettings) (r u name : Text) (d : ℕ) (s : Backend sql redis)
      → 0 < settings.typing_ttl_seconds
      → s.redis_up ≡ true
      → (redis.get (typing_key r u) (wait d (start_typing settings r u name s).1).store
          ≡ (if ltb d settings.typing_ttl_seconds then some name else none))
        × (redis.get
              (typing_key r u)
              (wait d (stop_typing r u name (start_typing settings r u name s).1).1).store
            ≡ none)
  unfolding start_typing stop_typing
  typing_until settings r u name d s positive up =
      let key = typing_key r u in
      let self = beq_refl {A = Text} key in
      (
        ground (
          arith,
          self,
          redis.get-later-setex d key key settings.typing_ttl_seconds name s.store positive,
        ),
        ground (
          arith,
          self,
          redis.get-later-del d key key (redis.setex key settings.typing_ttl_seconds name s.store),
        ),
      )
