-- ===== src/WebSocket/Dispatch.antt =====
-- What a turn of the loop in app/websocket/router.py does.
use fastapi_realtime_chat.Prelude.{
  ℕ, ◌<◌, ◌≡◌, refl, inl, inr, true, List, [], ◌∷◌, ◌++◌, arith, Text, codes, nat_eq, text_eq,
}
use fastapi_realtime_chat.Exec.{Error, Result, ok, err, written_if}
use fastapi_realtime_chat.Sql.{Sql}
use fastapi_realtime_chat.Redis.{Redis}
use fastapi_realtime_chat.Protocol.{Socket, error, send}
use fastapi_realtime_chat.Models.{User}
use fastapi_realtime_chat.Backend.{result-cases}
use fastapi_realtime_chat.Presence.{presence_key}
use fastapi_realtime_chat.Handlers.{Payload, Outside, Kind, text_or_empty, kind_of}
use fastapi_realtime_chat.Handlers.Frame.{Keeps-handler}
use fastapi_realtime_chat.WebSocket.{
  Process, Incoming, timeout, disconnected, malformed, message, run_handler, handle_safely, turn,
  message_loop,
}

-- What the loop leaves alone.
abbrev pub Frame : {sql : Sql} {redis : Redis} → Process sql redis → Process sql redis → Type 0
Frame p p' = (p'.manager ≡ p.manager) × (p'.backend.redis_up ≡ p.backend.redis_up)

module _ {sql : Sql} {redis : Redis} (out : Outside) (ws : Socket) (u : User) (room : Text) where
  module _ (kind : Kind) (payload : Payload) (p : Process sql redis) where
    abbrev handled_at : Result (Unit {0}) × Process sql redis
    handled_at = run_handler out ws kind payload u room p

    -- After a handler, whatever it did, the session holds what is committed: all that the handler
    -- wrote if it returned, and the tables as committed before if it raised.
    pub handle_safely_atomic :
        let p' = (handle_safely out ws kind payload u room p).1 in
        (p'.backend.db ≡ p'.backend.committed)
        × (p'.backend.committed
            ≡ written_if handled_at.0 handled_at.1.backend.db p.backend.committed)
    unfolding handle_safely run_handler
    handle_safely_atomic =
        let keeps =
          (Keeps-handler {sql = sql} {redis = redis} out u room kind payload).at p.backend in
        elim (result-cases handled_at.0) [
          | inl (a, e) ↦ (ground arith, ground arith)
          | inr (x, e) ↦ (ground arith, ground (arith, keeps.committed))
        ]

    -- The client of a handler that raised is told, if its socket takes the message.
    pub handle_safely_error :
        (e : Error)
        → handled_at.0 ≡ err e
        → out.alive ws ≡ true
        → ((handle_safely out ws kind payload u room p).0 ≡ ok tt)
          × ((handle_safely out ws kind payload u room p).1.outputs
              ≡ p.outputs ++ send ws (error (codes "Internal error processing message")) ∷ [])
    unfolding handle_safely run_handler
    handle_safely_error e h live = (ground arith, ground arith)

    handle_safely-Frame :
        let p' = (handle_safely out ws kind payload u room p).1 in
        (p'.manager ≡ p.manager) × (p'.backend.redis_up ≡ p.backend.redis_up)
    unfolding handle_safely run_handler
    handle_safely-Frame =
        let keeps =
          (Keeps-handler {sql = sql} {redis = redis} out u room kind payload).at p.backend in
        ground (arith, keeps.redis_up)

    -- With a time to live for typing above zero, no handler changes who is seen online, then or
    -- later.
    handle_safely-presence :
        0 < out.settings.typing_ttl_seconds
        → (v : Text) (d : ℕ)
        → redis.get
            (presence_key v)
            (redis.later d (handle_safely out ws kind payload u room p).1.backend.store)
          ≡ redis.get (presence_key v) (redis.later d p.backend.store)
    unfolding handle_safely run_handler
    handle_safely-presence positive v d =
        let keeps =
          (Keeps-handler {sql = sql} {redis = redis} out u room kind payload).at p.backend in
        ground (arith, keeps.presence positive v d)

  pub turn-presence :
      0 < out.settings.typing_ttl_seconds
      → (payload : Payload) (p : Process sql redis) (v : Text) (d : ℕ)
      → redis.get (presence_key v) (redis.later d (turn out ws payload u room p).1.backend.store)
        ≡ redis.get (presence_key v) (redis.later d p.backend.store)
  unfolding turn
  turn-presence positive payload p v d =
      let kind = kind_of (text_or_empty payload.type) in
      ground (arith, handle_safely-presence kind payload p positive v d)

  pub turn-Frame :
      (payload : Payload) (p : Process sql redis) → Frame p (turn out ws payload u room p).1
  unfolding turn
  turn-Frame payload p =
      let kind = kind_of (text_or_empty payload.type) in
      ground (arith, handle_safely-Frame kind payload p)

module _ {sql : Sql} {redis : Redis} (out : Outside) (ws : Socket) (u : User) (room : Text) where
  -- The loop leaves the registry alone, whatever the client sends.
  pub message_loop-Frame :
      (incoming : List Incoming) (p : Process sql redis)
      → Frame p (message_loop out ws u room incoming p).1
  unfolding message_loop
  message_loop-Frame [] p = (refl, refl)
  message_loop-Frame (timeout ∷ rest) p = (refl, refl)
  message_loop-Frame (disconnected ∷ rest) p = (refl, refl)
  message_loop-Frame (malformed ∷ rest) p = (refl, refl)
  message_loop-Frame (message fresh payload ∷ rest) p =
      let out' = record out { fresh = fresh } in
      ground (
        arith,
        turn-Frame out' ws u room payload p,
        message_loop-Frame rest (turn out' ws payload u room p).1,
      )

  -- With a time to live for typing above zero, nor does it change who is seen online.
  pub message_loop-presence :
      0 < out.settings.typing_ttl_seconds
      → (incoming : List Incoming) (p : Process sql redis) (v : Text) (d : ℕ)
      → redis.get
          (presence_key v)
          (redis.later d (message_loop out ws u room incoming p).1.backend.store)
        ≡ redis.get (presence_key v) (redis.later d p.backend.store)
  unfolding message_loop
  message_loop-presence positive [] p v d = refl
  message_loop-presence positive (timeout ∷ rest) p v d = refl
  message_loop-presence positive (disconnected ∷ rest) p v d = refl
  message_loop-presence positive (malformed ∷ rest) p v d = refl
  message_loop-presence positive (message fresh payload ∷ rest) p v d =
      let out' = record out { fresh = fresh } in
      ground (
        arith,
        turn-presence out' ws u room positive payload p v d,
        message_loop-presence positive rest (turn out' ws payload u room p).1 v d,
      )
