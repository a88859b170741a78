-- ===== src/Server/Quiet.antt =====
-- What a process holds when none of its endpoints is open.
use fastapi_realtime_chat.Prelude.{
  ℕ, ◌<◌, ◌≡◌, ◌==◌, ◌⊎◌, inl, inr, Bool, true, false, none, some, arith, Bool-cases, Option-cases,
  Text, nat_eq, text_eq,
}
use fastapi_realtime_chat.Exec.{ok}
use fastapi_realtime_chat.Uuid
use fastapi_realtime_chat.Sql.{Sql}
use fastapi_realtime_chat.Redis.{Redis}
use fastapi_realtime_chat.Protocol.{Socket}
use fastapi_realtime_chat.Presence.{TtlSettings, is_online}
use fastapi_realtime_chat.Presence.Heartbeat.{wait}
use fastapi_realtime_chat.ConnectionManager.{is_connected, total_connections}
use fastapi_realtime_chat.ConnectionManager.Laws.{registered}
use fastapi_realtime_chat.ConnectionManager.Consistent.{is_connected_iff}
use fastapi_realtime_chat.ConnectionManager.Total.{total_connections-nobody}
use fastapi_realtime_chat.WebSocket.{Process}
use fastapi_realtime_chat.Server.{
  Task, idle, entered, serving, leaving, departed, failed, ended, Server, Reach, starting,
}
use fastapi_realtime_chat.Server.Steps.{Reach-Inv}
use fastapi_realtime_chat.Server.Invariant.{Inv, shown, holds, shows, Inv-starting}

-- Whether the endpoint was not called, or is past its `set_offline`, or has failed before it.
unfoldable pub is_over : Task → Bool
is_over idle = true
is_over (entered u room_id) = false
is_over (serving u room_id) = false
is_over (leaving u room_id) = false
is_over (departed u) = true
is_over (failed u) = true
is_over ended = true

-- Whether the endpoint of the user has failed before its `set_offline`.
unfoldable pub has_failed : (user_id : Text) → Task → Bool
has_failed v (failed u) = Uuid.str u.id == v
has_failed v _ = false

over-holds : (r v : Text) (t : Task) → is_over t ≡ true → holds r v t ≡ false
unfolding is_over holds
over-holds r v t h = ground arith

over-shows : (v : Text) (t : Task) → is_over t ≡ true → shows v t ≡ true → has_failed v t ≡ true
unfolding is_over shows has_failed
over-shows v t h s = ground arith

module _ {sql : Sql} {redis : Redis} where
  Inv-unregistered :
      {t : Server sql redis}
      → Inv t
      → ((ws : Socket) → is_over (t.task ws) ≡ true)
      → (r u : Text) → registered r u t.process.manager ≡ none
  Inv-unregistered {t} inv over r u = elim (Option-cases (registered r u t.process.manager)) [
    | inl e ↦ e
    | inr (ws, e) ↦ absurd (ground (arith, inv.held r u ws e, over-holds r u (t.task ws) (over ws)))
  ]

  Inv-offline :
      {t : Server sql redis}
      → Inv t
      → ((ws : Socket) → is_over (t.task ws) ≡ true)
      → (u : Text) (d : ℕ)
      → ((is_online u (wait d t.process.backend)).0 ≡ ok false)
        ⊎ ((ws : Socket) × (has_failed u (t.task ws) ≡ true))
  unfolding is_online
  Inv-offline {t} inv over u d = elim (Bool-cases (shown u d t.process.backend)) [
    | inl e ↦ let (ws, h) = inv.seen u d e in inr (ws, over-shows u (t.task ws) (over ws) h)
    | inr e ↦ inl (ground (arith, inv.up))
  ]

module _ {sql : Sql} {redis : Redis} (settings : TtlSettings)
    (presence_positive : 0 < settings.presence_ttl_seconds)
    (typing_positive : 0 < settings.typing_ttl_seconds) (p : Process sql redis)
    (up : p.backend.redis_up ≡ true)
    (nobody : (u : Text) (d : ℕ) → (is_online u (wait d p.backend)).0 ≡ ok false) where
  pub Reach-starting : {t : Server sql redis} → Reach settings (starting p) t → Inv t
  unfolding is_online
  Reach-starting reach =
      Reach-Inv settings presence_positive typing_positive
        (Inv-starting p up (λ v d. ground (arith, nobody v d, up))) reach

  -- A process that starts with Redis up, nobody online and times to live above zero. Whatever order
  -- its tasks have run in, whoever has replaced whose socket, and whatever HTTP requests have done to
  -- the tables: when every endpoint is past its `set_offline`, has failed before it, or has not
  -- begun, no user is connected, the registry counts no connection, and a user is not seen online,
  -- then or later, unless an endpoint of that user has failed.
  pub all_over_clean :
      (t : Server sql redis)
      → Reach settings (starting p) t
      → ((ws : Socket) → is_over (t.task ws) ≡ true)
      → ((u : Text) → is_connected u t.process.manager ≡ false)
        × (total_connections t.process.manager ≡ 0)
        × ((u : Text) (d : ℕ)
            → ((is_online u (wait d t.process.backend)).0 ≡ ok false)
              ⊎ ((ws : Socket) × (has_failed u (t.task ws) ≡ true)))
  all_over_clean t reach over =
      let inv = Reach-starting reach in
      let none_registered = Inv-unregistered inv over in
      (
        λ u. elim (Bool-cases (is_connected u t.process.manager)) [
          | inl e ↦
              let (r, ws, h) = (is_connected_iff u t.process.manager inv.consistent).0 e in
              absurd (ground (arith, none_registered r u))
          | inr e ↦ e
        ],
        total_connections-nobody t.process.manager inv.consistent none_registered,
        Inv-offline inv over,
      )

  -- A process that starts with Redis up, nobody online and times to live above zero: at any time,
  -- whatever HTTP requests have done to the tables, a user who is registered in a room has an endpoint
  -- of that user in that room, on the same socket, that is before its `finally`; and a user who is
  -- seen online, then or later, has an endpoint that has begun to serve and has not reached
  -- `set_offline`, be it that its `finally` has raised before it.
  pub registered_served :
      (t : Server sql redis)
      → Reach settings (starting p) t
      → ((r u : Text) (ws : Socket)
          → registered r u t.process.manager ≡ some ws
          → holds r u (t.task ws) ≡ true)
        × ((u : Text) (d : ℕ)
            → (is_online u (wait d t.process.backend)).0 ≡ ok true
            → (ws : Socket) × (shows u (t.task ws) ≡ true))
  unfolding is_online
  registered_served t reach =
      let inv = Reach-starting reach in (inv.held, λ u d e. inv.seen u d (ground (arith, inv.up)))
