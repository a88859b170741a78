-- ===== src/WebSocket/Lifecycle.antt =====
-- A whole connection to `websocket_chat` of app/websocket/router.py.
use fastapi_realtime_chat.Prelude.{
  ℕ, ◌<◌, ◌⊎◌, inl, inr, refl, Bool-cases, is_some, ltb, ◌≡◌, ap, ◌∙◌, true, false, none, some,
  List, [], ◌∷◌, ◌++◌, arith, Text, nat_eq, text_eq, beq_refl,
}
use fastapi_realtime_chat.Exec.{
  redis_error, missing_greenlet, Result, ok, err, lift, handled, modify_state, ◌>>◌, continue,
}
use fastapi_realtime_chat.Uuid
use fastapi_realtime_chat.Sql.{Sql}
use fastapi_realtime_chat.Redis.{Redis}
use fastapi_realtime_chat.Protocol.{Socket, close}
use fastapi_realtime_chat.Models.{User}
use fastapi_realtime_chat.Rooms.Membership.{members_of, is_member_lem}
use fastapi_realtime_chat.Presence.{set_online, is_online}
use fastapi_realtime_chat.Presence.Heartbeat.{wait}
use fastapi_realtime_chat.Presence.Stored.{stored, stored-set_online}
use fastapi_realtime_chat.ConnectionManager.{connect, broadcast_to_room}
use fastapi_realtime_chat.ConnectionManager.Laws.{
  registered, registered-connect, registered-disconnect,
}
use fastapi_realtime_chat.ConnectionManager.Consistent.{
  IsConsistent, connect-IsConsistent, disconnect-IsConsistent,
}
use fastapi_realtime_chat.ConnectionManager.Broadcast.{broadcast-IsConsistent}
use fastapi_realtime_chat.Handlers.{Outside}
use fastapi_realtime_chat.WebSocket.{
  Process, Incoming, is_expired, in_transaction, over_session, message_loop, cleanup, serve,
  websocket_chat, register, on_backend, broadcast, presence_event, unless_disconnect,
}
use fastapi_realtime_chat.WebSocket.Cleanup.{
  registered-cleanup, cleanup-IsConsistent, cleanup_offline, cleanup_expired,
}
use fastapi_realtime_chat.WebSocket.Dispatch.{message_loop-Frame, message_loop-presence}

module _ {sql : Sql} {redis : Redis} (out : Outside) where
  caught_state :
      (r : Result (Unit {0})) (q : Process sql redis) → (handled r (unless_disconnect out) q).1 ≡ q
  caught_state r q = ground arith

lifted_state : {S : Type 0} (x r : Result (Unit {0})) (q : S) → (continue x (λ _. lift r) q).1 ≡ q
lifted_state x r q = ground arith

module _ {sql : Sql} {redis : Redis} (out : Outside) (ws : Socket) (u : User) (room : Text) where
  -- A room that is no UUID: the socket is closed with 4001, and nothing else happens.
  pub websocket_chat_unknown :
      (incoming : List Incoming) (p : Process sql redis)
      → Uuid.parse room ≡ none
      → websocket_chat out ws u room incoming p
        ≡ (ok tt, record p { outputs = p.outputs ++ close ws 4001 ∷ [] })
  unfolding websocket_chat
  websocket_chat_unknown incoming p e = ground arith

  -- A user who is not in the room: the socket is closed with 4003, and nothing else happens.
  pub websocket_chat_outsider :
      (incoming : List Incoming) (p : Process sql redis) (r : ℕ)
      → Uuid.parse room ≡ some r
      → members_of r u.id p.backend.db ≡ 0
      → websocket_chat out ws u room incoming p
        ≡ (ok tt, record p { outputs = p.outputs ++ close ws 4003 ∷ [] })
  unfolding websocket_chat
  websocket_chat_outsider incoming p r e h = ground (arith, is_member_lem r u.id p.backend)

  -- If Redis is down when a member connects, the endpoint raises and leaves the socket
  -- registered.
  pub websocket_chat_leaks :
      (incoming : List Incoming) (p : Process sql redis) (r : ℕ)
      → Uuid.parse room ≡ some r
      → members_of r u.id p.backend.db ≡ 1
      → p.backend.redis_up ≡ false
      → ((websocket_chat out ws u room incoming p).0 ≡ err redis_error)
        × (registered room (Uuid.str u.id) (websocket_chat out ws u room incoming p).1.manager
            ≡ some ws)
  unfolding websocket_chat set_online
  websocket_chat_leaks incoming p r e h down =
      let uid = Uuid.str u.id in
      (
        ground (arith, is_member_lem r u.id p.backend),
        ground (
          arith,
          is_member_lem r u.id p.backend,
          registered-connect room uid room uid p.manager ws,
          beq_refl {A = Text} room,
          beq_refl {A = Text} uid,
        ),
      )

  -- The `finally` block starts from what the loop leaves, however that ends.
  serve_end :
      (incoming : List Incoming) (p : Process sql redis)
      → (r : Result (Unit {0})) × (serve out ws u room incoming p
          ≡ (do cleanup out ws u room; lift r) (message_loop out ws u room incoming p).1)
  unfolding serve
  serve_end incoming p =
      let (r, q) = message_loop out ws u room incoming p in
      let (r', q') = handled r (unless_disconnect out) q in
      (
        r',
        ap (λ x. (do cleanup out ws u room; lift r') x)
            (caught_state {sql = sql} {redis = redis} out r q),
      )

  -- The state in which the loop starts.
  unfoldable pub opened : Process sql redis → Process sql redis
  opened p =
      ((do
        modify_state (over_session ws (λ _. in_transaction))
        register out ws room (Uuid.str u.id)
        on_backend out (set_online out.settings (Uuid.str u.id) u.username)
        broadcast out room (presence_event u true))
        p).1

  opened_manager :
      (p : Process sql redis)
      → p.backend.redis_up ≡ true
      → ((opened p).manager
          ≡ (broadcast_to_room out.alive room
              (presence_event u true)
              (connect ws room (Uuid.str u.id) p.manager).1).1)
        × ((opened p).backend.redis_up ≡ true)
  unfolding opened set_online
  opened_manager p up = (ground arith, ground arith)

  pub websocket_chat-opened :
      (incoming : List Incoming) (p : Process sql redis) (r : ℕ)
      → Uuid.parse room ≡ some r
      → members_of r u.id p.backend.db ≡ 1
      → p.backend.redis_up ≡ true
      → websocket_chat out ws u room incoming p ≡ serve out ws u room incoming (opened p)
  unfolding opened set_online websocket_chat
  websocket_chat-opened incoming p r e h up = ground (arith, is_member_lem r u.id p.backend)

  opened_presence :
      (p : Process sql redis)
      → 0 < out.settings.presence_ttl_seconds
      → p.backend.redis_up ≡ true
      → (d : ℕ)
      → is_some (stored (Uuid.str u.id) d (opened p).backend)
        ≡ ltb d out.settings.presence_ttl_seconds
  unfolding opened set_online
  opened_presence p positive up d =
      let set =
        stored-set_online out.settings positive (Uuid.str u.id) u.username p.backend up
          (Uuid.str u.id) d in
      ground (arith, set, beq_refl {A = Text} (Uuid.str u.id))

  -- How `finally` ends: the user is shown offline at every later time, or, if the session has
  -- expired the user, it raises and Redis keeps what it had.
  abbrev pub Ended : (before : Process sql redis) → Result (Unit {0}) × Process sql redis → Type 0
  Ended q (r, p') =
      ((is_expired (q.sessions ws) ≡ false)
        × ((d : ℕ) → (is_online (Uuid.str u.id) (wait d p'.backend)).0 ≡ ok false))
      ⊎ ((is_expired (q.sessions ws) ≡ true)
          × (r ≡ err missing_greenlet)
          × ((d : ℕ)
              → (is_online (Uuid.str u.id) (wait d p'.backend)).0
                ≡ ok (ltb d out.settings.presence_ttl_seconds)))

  cleaned :
      (r : Result (Unit {0})) (q : Process sql redis)
      → q.backend.redis_up ≡ true
      → IsConsistent q.manager
      → ((d : ℕ)
          → is_some (stored (Uuid.str u.id) d q.backend) ≡ ltb d out.settings.presence_ttl_seconds)
      → let x = (do cleanup out ws u room; lift r) q in
        (registered room (Uuid.str u.id) x.1.manager ≡ none) × IsConsistent x.1.manager × Ended q x
  unfolding is_online
  cleaned r q up ready shown =
      let here = beq_refl {A = Text} room in
      let me = beq_refl {A = Text} (Uuid.str u.id) in
      elim (Bool-cases (is_expired (q.sessions ws))) [
        | inl e ↦
            let gone = registered-disconnect room (Uuid.str u.id) room (Uuid.str u.id) q.manager in
            rw (cleanup_expired out ws u room q e) (
              ground (arith, gone, here, me),
              disconnect-IsConsistent room (Uuid.str u.id) q.manager ready,
              inr (e, refl, λ d. ground (arith, up, shown d)),
            )
        | inr e ↦
            let same = lifted_state (cleanup out ws u room q).0 r (cleanup out ws u room q).1 in
            rw same (
              registered-cleanup out ws u room q up e ready room (Uuid.str u.id)
                  ∙ ground (arith, here, me),
              cleanup-IsConsistent out ws u room q up e ready,
              inl (e, cleanup_offline out ws u room q up e),
            )
      ]

  -- A member's connection, with Redis up, times to live above zero and from a consistent registry,
  -- from its start to its end: whatever the client sends, and however the loop ends, the user is not
  -- registered in the room any more, and the registry is still consistent. If the session still
  -- holds the user at the end, the user is seen offline at every later time. If a rollback has
  -- expired the user, the endpoint raises before `set_offline`, and the user is seen online up to
  -- the time to live of the presence key.
  pub websocket_chat_ends :
      (incoming : List Incoming) (p : Process sql redis) (r : ℕ)
      → 0 < out.settings.presence_ttl_seconds
      → 0 < out.settings.typing_ttl_seconds
      → Uuid.parse room ≡ some r
      → members_of r u.id p.backend.db ≡ 1
      → p.backend.redis_up ≡ true
      → IsConsistent p.manager
      → let x = websocket_chat out ws u room incoming p in
        (registered room (Uuid.str u.id) x.1.manager ≡ none)
        × IsConsistent x.1.manager
        × Ended (message_loop out ws u room incoming (opened p)).1 x
  websocket_chat_ends incoming p r shows types e h up consistent =
      let (same, still_up) = opened_manager p up in
      let q = (message_loop out ws u room incoming (opened p)).1 in
      let frame = message_loop-Frame out ws u room incoming (opened p) in
      let (r', ended) = serve_end incoming (opened p) in
      let connected = connect-IsConsistent ws room (Uuid.str u.id) p.manager consistent in
      let ready : IsConsistent q.manager = rw (frame.0 ∙ same) (
        broadcast-IsConsistent out.alive (presence_event u true) room
          (connect ws room (Uuid.str u.id) p.manager).1 connected) in
      let shown = λ (d : ℕ).
        ap is_some (message_loop-presence out ws u room types incoming (opened p) (Uuid.str u.id) d)
        ∙ opened_presence p shows up d in
      rw (websocket_chat-opened incoming p r e h up ∙ ended)
        (cleaned r' q (frame.1 ∙ still_up) ready shown)
