-- ===== src/WebSocket/Cleanup.antt =====
-- The `finally` block of `websocket_chat` in app/websocket/router.py.
use fastapi_realtime_chat.Prelude.{
  ℕ, ◌≡◌, ◌∙◌, true, false, none, some, arith, if◌then◌else◌, ◌==◌, Text, nat_eq, text_eq, beq_refl,
}
use fastapi_realtime_chat.Exec.{missing_greenlet, ok, err}
use fastapi_realtime_chat.Uuid
use fastapi_realtime_chat.Sql.{Sql}
use fastapi_realtime_chat.Redis.{Redis}
use fastapi_realtime_chat.Protocol.{Socket}
use fastapi_realtime_chat.Models.{User}
use fastapi_realtime_chat.Users.{update_last_seen}
use fastapi_realtime_chat.Presence.{presence_key, set_offline, is_online}
use fastapi_realtime_chat.Presence.Heartbeat.{wait}
use fastapi_realtime_chat.ConnectionManager.{connect, disconnect, broadcast_to_room, is_connected}
use fastapi_realtime_chat.ConnectionManager.Laws.{
  registered, registered-connect, registered-disconnect,
}
use fastapi_realtime_chat.ConnectionManager.Consistent.{
  IsConsistent, disconnect-IsConsistent, connect-IsConsistent, is_connected_iff,
}
use fastapi_realtime_chat.ConnectionManager.Broadcast.{
  keep_alive, registered-broadcast, broadcast-IsConsistent,
}
use fastapi_realtime_chat.Handlers.{Outside}
use fastapi_realtime_chat.WebSocket.{Process, is_expired, cleanup, presence_event}

module _ {sql : Sql} {redis : Redis} (out : Outside) (ws : Socket) (u : User) (room : Text)
    (p : Process sql redis) (up : p.backend.redis_up ≡ true)
    (loaded : is_expired (p.sessions ws) ≡ false) where
  abbrev uid : Text
  uid = Uuid.str u.id

  abbrev pub after : Process sql redis
  after = (cleanup out ws u room p).1

  cleanup_manager :
      after.manager
      ≡ (broadcast_to_room out.alive room
          (presence_event u false)
          (disconnect room uid p.manager)).1
  unfolding cleanup set_offline update_last_seen
  cleanup_manager = ground arith

  pub cleanup_ok : (cleanup out ws u room p).0 ≡ ok tt
  unfolding cleanup set_offline update_last_seen
  cleanup_ok = ground arith

  -- With Redis up, a user whom the session has loaded, and a consistent registry, the `finally`
  -- block unregisters the user in the
  -- room, with whatever socket; of the others in that room it drops those whose sockets fail, and
  -- it leaves the other rooms.
  pub registered-cleanup :
      IsConsistent p.manager
      → (r' u' : Text)
      → registered r' u' after.manager ≡ (
          if room == r'
          then (if uid == u' then none else keep_alive out.alive (registered r' u' p.manager))
          else registered r' u' p.manager)
  registered-cleanup h r' u' = rw cleanup_manager (
      ground (
        arith,
        registered-broadcast out.alive (presence_event u false) room r' u'
            (disconnect room uid p.manager) (disconnect-IsConsistent room uid p.manager h),
        registered-disconnect room uid r' u' p.manager,
      ))

  pub cleanup-IsConsistent : IsConsistent p.manager → IsConsistent after.manager
  cleanup-IsConsistent h = rw cleanup_manager (
      broadcast-IsConsistent out.alive (presence_event u false) room (disconnect room uid p.manager)
        (disconnect-IsConsistent room uid p.manager h))

  -- It shows the user offline, at every later time.
  pub cleanup_offline : (d : ℕ) → (is_online uid (wait d after.backend)).0 ≡ ok false
  unfolding cleanup set_offline update_last_seen is_online
  cleanup_offline d = ground (
    arith,
    beq_refl {A = Text} (presence_key uid),
    redis.get-later-del d (presence_key uid) (presence_key uid) p.backend.store,
  )

  -- With Redis up, a loaded user and a consistent registry: a user who is connected in a second room is shown
  -- offline when the connection in the first one ends, though the process still has a socket of
  -- the user.
  pub offline_while_connected :
      IsConsistent p.manager
      → (r' : Text) (ws' : Socket) → (room == r') ≡ false
      → registered r' uid p.manager ≡ some ws'
      → (d : ℕ)
      → (is_connected uid after.manager ≡ true)
        × ((is_online uid (wait d after.backend)).0 ≡ ok false)
  offline_while_connected h r' ws' other here d = (
    (is_connected_iff uid after.manager (cleanup-IsConsistent h)).1
        (r', ws', registered-cleanup h r' uid ∙ ground arith),
    cleanup_offline d,
  )

module _ {sql : Sql} {redis : Redis} (out : Outside) (ws : Socket) (u : User) (room : Text)
    (p : Process sql redis) (up : p.backend.redis_up ≡ true)
    (loaded : is_expired (p.sessions ws) ≡ false) where
  -- With Redis up, a loaded user and a consistent registry: a user who connects again to a room replaces the
  -- first socket there. The end of the first connection then unregisters the second socket, and
  -- shows the user offline.
  pub replaced_socket_lost :
      IsConsistent p.manager
      → (ws' : Socket)
      → let again : Process sql redis = record p {
        manager = (connect ws' room (Uuid.str u.id) p.manager).1;
      } in
        (registered room (Uuid.str u.id) again.manager ≡ some ws')
        × (registered room (Uuid.str u.id) (cleanup out ws u room again).1.manager ≡ none)
        × ((d : ℕ)
            → (is_online (Uuid.str u.id) (wait d (cleanup out ws u room again).1.backend)).0
              ≡ ok false)
  replaced_socket_lost h ws' =
      let uid = Uuid.str u.id in
      let again : Process sql redis = record p { manager = (connect ws' room uid p.manager).1 } in
      let here = beq_refl {A = Text} room in
      let me = beq_refl {A = Text} uid in
      (
        ground (arith, here, me, registered-connect room uid room uid p.manager ws'),
        registered-cleanup out ws u room again up loaded
              (connect-IsConsistent ws' room uid p.manager h) room uid
            ∙ ground (arith, here, me),
        cleanup_offline out ws u room again up loaded,
      )

module _ {sql : Sql} {redis : Redis} (out : Outside) (ws : Socket) (u : User) (room : Text)
    (p : Process sql redis) (lost : is_expired (p.sessions ws) ≡ true) where
  -- If the session has expired the user, the `finally` block raises as soon as it has unregistered
  -- the user.
  pub cleanup_expired :
      cleanup out ws u room p
      ≡ (err missing_greenlet, record p { manager = disconnect room (Uuid.str u.id) p.manager })
  unfolding cleanup
  cleanup_expired = ground (arith, lost)
