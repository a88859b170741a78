-- ===== src/WebSocket/Expiry.antt =====
-- What a handler that raises does to the rest of a connection in app/websocket/router.py.
use fastapi_realtime_chat.Prelude.{
  ℕ, ◌<◌, ◌≡◌, refl, inl, inr, true, false, none, some, List, [], ◌∷◌, arith, ltb, ◌==◌,
  text_beq_iff, Text, codes, nat_eq, text_eq, beq_refl,
}
use fastapi_realtime_chat.Exec.{Error, missing_greenlet, ok, err}
use fastapi_realtime_chat.Uuid
use fastapi_realtime_chat.Sql.{Sql}
use fastapi_realtime_chat.Redis.{Redis}
use fastapi_realtime_chat.Protocol.{Socket}
use fastapi_realtime_chat.Models.{User, Fresh}
use fastapi_realtime_chat.Rooms.Membership.{members_of}
use fastapi_realtime_chat.Presence.{is_online}
use fastapi_realtime_chat.Presence.Heartbeat.{wait}
use fastapi_realtime_chat.ConnectionManager.Laws.{registered}
use fastapi_realtime_chat.ConnectionManager.Consistent.{IsConsistent}
use fastapi_realtime_chat.Handlers.{Payload, Outside, Kind, text_or_empty, kind_of}
use fastapi_realtime_chat.WebSocket.{
  Process, Incoming, timeout, disconnected, malformed, message, is_expired, queries, run_handler,
  handle_safely, turn, message_loop, websocket_chat,
}
use fastapi_realtime_chat.WebSocket.Lifecycle.{opened, websocket_chat_ends}

ping_asks :
    (type : Text) (payload : Payload)
    → (type == codes "ping") ≡ true
    → queries (kind_of type) payload ≡ false
unfolding kind_of
ping_asks type payload h = let e = (text_beq_iff type (codes "ping")).0 h in rw e refl

module _ {sql : Sql} {redis : Redis} (out : Outside) (ws : Socket) (u : User) (room : Text) where
  -- Nothing in the loop loads the user again.
  handle_safely-expired :
      (kind : Kind) (payload : Payload) (p : Process sql redis)
      → is_expired (p.sessions ws) ≡ true
      → is_expired ((handle_safely out ws kind payload u room p).1.sessions ws) ≡ true
  unfolding handle_safely run_handler
  handle_safely-expired kind payload p h = ground (arith, h, beq_refl {A = Socket} ws)

  turn-expired :
      (payload : Payload) (p : Process sql redis)
      → is_expired (p.sessions ws) ≡ true
      → is_expired ((turn out ws payload u room p).1.sessions ws) ≡ true
  unfolding turn
  turn-expired payload p h =
      ground (arith, h, handle_safely-expired (kind_of (text_or_empty payload.type)) payload p)

  -- A handler that raises behind a query is rolled back, and the user expires.
  handle_safely-expires :
      (kind : Kind) (payload : Payload) (p : Process sql redis) (e : Error)
      → is_expired (p.sessions ws) ≡ false
      → queries kind payload ≡ true
      → (run_handler out ws kind payload u room p).0 ≡ err e
      → is_expired ((handle_safely out ws kind payload u room p).1.sessions ws) ≡ true
  unfolding handle_safely run_handler
  handle_safely-expires kind payload p e loaded asks raises =
      ground (arith, loaded, asks, raises, beq_refl {A = Socket} ws)

  turn-expires :
      (payload : Payload) (p : Process sql redis) (e : Error)
      → is_expired (p.sessions ws) ≡ false
      → let kind = kind_of (text_or_empty payload.type) in
        queries kind payload ≡ true
        → (run_handler out ws kind payload u room p).0 ≡ err e
        → is_expired ((turn out ws payload u room p).1.sessions ws) ≡ true
  unfolding turn
  turn-expires payload p e loaded asks raises =
      let kind = kind_of (text_or_empty payload.type) in
      ground (
        arith,
        asks,
        ping_asks (text_or_empty payload.type) payload,
        handle_safely-expires kind payload p e loaded asks raises,
      )

module _ {sql : Sql} {redis : Redis} (out : Outside) (ws : Socket) (u : User) (room : Text) where
  message_loop-expired :
      (incoming : List Incoming) (p : Process sql redis)
      → is_expired (p.sessions ws) ≡ true
      → is_expired ((message_loop out ws u room incoming p).1.sessions ws) ≡ true
  unfolding message_loop
  message_loop-expired [] p h = h
  message_loop-expired (timeout ∷ rest) p h = h
  message_loop-expired (disconnected ∷ rest) p h = h
  message_loop-expired (malformed ∷ rest) p h = h
  message_loop-expired (message fresh payload ∷ rest) p h =
      let out' = record out { fresh = fresh } in
      let kept = turn-expired out' ws u room payload p h in
      ground (arith, kept, message_loop-expired rest (turn out' ws payload u room p).1 kept)

  opened-loaded :
      (p : Process sql redis)
      → p.backend.redis_up ≡ true
      → is_expired ((opened out ws u room p).sessions ws) ≡ false
  unfolding opened
  opened-loaded p up = ground (arith, up, beq_refl {A = Socket} ws)

  -- A member's connection, with Redis up, times to live above zero and from a consistent registry,
  -- whose first message makes its handler raise after it has asked the database: whatever the client
  -- sends after it, the endpoint ends with MissingGreenlet, and the user is seen online up to the time
  -- to live of the presence key, though the process does not hold the socket in the room any more.
  pub failed_message_lingers :
      (fresh : ℕ → Fresh) (payload : Payload) (rest : List Incoming) (p : Process sql redis) (r : ℕ)
      (e : Error)
      → 0 < out.settings.presence_ttl_seconds
      → 0 < out.settings.typing_ttl_seconds
      → Uuid.parse room ≡ some r
      → members_of r u.id p.backend.db ≡ 1
      → p.backend.redis_up ≡ true
      → IsConsistent p.manager
      → let kind = kind_of (text_or_empty payload.type) in
        queries kind payload ≡ true
        → (run_handler
            (record out { fresh = fresh })
            ws
            kind
            payload
            u
            room
            (opened out ws u room p)).0
          ≡ err e
        → let (x, p') = websocket_chat out ws u room (message fresh payload ∷ rest) p in
          (x ≡ err missing_greenlet)
          × (registered room (Uuid.str u.id) p'.manager ≡ none)
          × ((d : ℕ)
              → (is_online (Uuid.str u.id) (wait d p'.backend)).0
                ≡ ok (ltb d out.settings.presence_ttl_seconds))
  unfolding message_loop
  failed_message_lingers fresh payload rest p r e shows types parsed one up ready asks raises =
      let out' = record out { fresh = fresh } in
      let q = opened out ws u room p in
      let lost = turn-expires out' ws u room payload q e (opened-loaded p up) asks raises in
      let over = message_loop-expired rest (turn out' ws payload u room q).1 lost in
      let (gone, consistent, ended) =
        websocket_chat_ends out ws u room (message fresh payload ∷ rest) p r shows types parsed one
          up ready in
      elim ended [ inl h ↦ absurd (ground (arith, h.0, lost, over)) | inr h ↦ (h.1, gone, h.2) ]
