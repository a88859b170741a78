-- ===== src/Integrity/Sockets.antt =====
-- What the WebSocket endpoint of app/websocket/router.py does to the tables keeps them intact.
use fastapi_realtime_chat.Prelude.{
  ℕ, ◌≡◌, refl, ◌⊎◌, inl, inr, Bool, true, false, ◌&&◌, Bool-cases, Option, none, some, List, [],
  ◌∷◌, ◌++◌, arith, if◌then◌else◌, ◌==◌, Text, codes, nat_eq, text_eq,
}
use fastapi_realtime_chat.Exec.{Result, ok, err, Exec, ◌>>◌}
use fastapi_realtime_chat.Sql.{Sql}
use fastapi_realtime_chat.Redis.{Redis}
use fastapi_realtime_chat.Protocol.{Socket, Event, pong, error}
use fastapi_realtime_chat.Models.{User}
use fastapi_realtime_chat.Backend.{Backend, commit, rollback}
use fastapi_realtime_chat.Users.{update_last_seen}
use fastapi_realtime_chat.Handlers.{
  Payload, Outside, Kind, chat_message, typing_start, typing_stop, mark_read, unknown, kind_of,
  handler, handle_chat_message, handle_mark_read, mark_ids, mark_raw_ids, parse_ids, room_uuid,
  text_or_empty,
}
use fastapi_realtime_chat.WebSocket.{
  Process, on_backend, send_json, is_expired, reads_user, run_handler, handle_safely, turn,
  suppress,
}
use fastapi_realtime_chat.Integrity.Safe.{
  miscounts, Sound, Safe, Safe-commit, Safe-rollback, safe_rules,
}
use fastapi_realtime_chat.Integrity.Rows.{Safe-update_last_seen}
use fastapi_realtime_chat.Integrity.Services.{
  Safe-send_message, Safe-mark_messages_read, Safe-start_typing, Safe-stop_typing,
}

room_uuid-counts : (t : Text) → miscounts (room_uuid t) ≡ false
room_uuid-counts t = ground arith

module _ {sql : Sql} {redis : Redis} (out : Outside) where
  module _ (u : User) (room : Text) where
    Safe-mark_ids :
        (ids : Option (List ℕ)) → Safe {sql = sql} {redis = redis} (mark_ids out ids u room)
    Safe-mark_ids none = search safe_rules
    Safe-mark_ids (some ids) = search (safe_rules, room_uuid-counts, Safe-mark_messages_read)

    Safe-mark_raw_ids :
        (ids : Option (List Text)) → Safe {sql = sql} {redis = redis} (mark_raw_ids out ids u room)
    Safe-mark_raw_ids none = search safe_rules
    Safe-mark_raw_ids (some []) = search safe_rules
    Safe-mark_raw_ids (some (t ∷ ts)) = Safe-mark_ids (parse_ids (t ∷ ts))

    Safe-handle_chat_message :
        (payload : Payload)
        → Safe {sql = sql} {redis = redis} (handle_chat_message out payload u room)
    unfolding handle_chat_message
    Safe-handle_chat_message payload =
        search (safe_rules, room_uuid-counts, Safe-send_message) depth 12

    Safe-handler :
        (kind : Kind) (payload : Payload)
        → Safe {sql = sql} {redis = redis} (handler out kind payload u room)
    unfolding handler handle_mark_read
    Safe-handler chat_message payload = Safe-handle_chat_message payload
    Safe-handler typing_start payload = Safe-start_typing out.settings room _ _
    Safe-handler typing_stop payload = Safe-stop_typing room _ _
    Safe-handler mark_read payload = Safe-mark_raw_ids payload.message_ids
    Safe-handler unknown payload = search safe_rules

    -- What is left of a handler's writes.
    pub settled : Result (Unit {0}) → Backend sql redis → Backend sql redis
    settled (ok done) b = (commit b).1
    settled (err e) b = (rollback b).1

    -- A turn leaves database and Redis alone, or rolls back, or leaves them as the settled run of a
    -- handler does.
    abbrev pub Turned : Payload → (before after : Backend sql redis) → Type 0
    Turned payload b b' =
        (b' ≡ b)
        ⊎ (b' ≡ (rollback b).1)
        ⊎ ((kind : Kind) × (b'
              ≡ settled (handler out kind payload u room b).0
                  (handler out kind payload u room b).1))

    handle_safely-Turned :
        (ws : Socket) (kind : Kind) (payload : Payload) (p : Process sql redis)
        → Turned payload p.backend (handle_safely out ws kind payload u room p).1.backend
    unfolding handle_safely run_handler settled
    handle_safely-Turned ws kind payload p =
        elim (Bool-cases (reads_user kind payload && is_expired (p.sessions ws))) [
          | inl e ↦ inr (inl (ground (arith, e)))
          | inr e ↦ inr (inr (kind, ground (arith, e)))
        ]

    send_json-Turned :
        (ws : Socket) (event : Event) (payload : Payload) (p : Process sql redis)
        → Turned payload p.backend (send_json out ws event p).1.backend
    send_json-Turned ws event payload p = inl (ground arith)

    -- A turn, by the kind of its message.
    abbrev acted : Kind → Socket → Event → Payload → Exec (Process sql redis) (Unit {0})
    acted kind ws event payload = elim kind [
      | unknown ↦ send_json out ws event
      | kind ↦ handle_safely out ws kind payload u room
    ]

    acted-Turned :
        (kind : Kind) (ws : Socket) (event : Event) (payload : Payload) (p : Process sql redis)
        → Turned payload p.backend (acted kind ws event payload p).1.backend
    acted-Turned chat_message ws event payload p = handle_safely-Turned ws chat_message payload p
    acted-Turned typing_start ws event payload p = handle_safely-Turned ws typing_start payload p
    acted-Turned typing_stop ws event payload p = handle_safely-Turned ws typing_stop payload p
    acted-Turned mark_read ws event payload p = handle_safely-Turned ws mark_read payload p
    acted-Turned unknown ws event payload p = send_json-Turned ws event payload p

    either :
        (b : Bool) (m n : Exec (Process sql redis) (Unit {0})) (payload : Payload)
        (p : Process sql redis)
        → Turned payload p.backend (m p).1.backend
        → Turned payload p.backend (n p).1.backend
        → Turned payload p.backend ((if b then m else n) p).1.backend
    either true m n payload p km kn = km
    either false m n payload p km kn = kn

    turn-Turned :
        (ws : Socket) (payload : Payload) (p : Process sql redis)
        → Turned payload p.backend (turn out ws payload u room p).1.backend
    unfolding turn
    turn-Turned ws payload p =
        let msg_type = text_or_empty payload.type in
        let event = error (codes "Unknown type: " ++ msg_type) in
        let kind = kind_of msg_type in
        either (msg_type == codes "ping") (send_json out ws pong) (acted kind ws event payload)
          payload p (send_json-Turned ws pong payload p) (acted-Turned kind ws event payload p)

    settled-Sound : (r : Result (Unit {0})) (b : Backend sql redis) → Sound b → Sound (settled r b)
    unfolding settled
    settled-Sound (ok done) b h = (Safe-commit.at b h).0
    settled-Sound (err e) b h = (Safe-rollback.at b h).0

    pub turn-Sound :
        (ws : Socket) (payload : Payload) (p : Process sql redis)
        → Sound p.backend
        → Sound (turn out ws payload u room p).1.backend
    turn-Sound ws payload p h = elim (turn-Turned ws payload p) [
      | inl same ↦ rw same h
      | inr (inl back) ↦ rw back ((Safe-rollback.at p.backend h).0)
      | inr (inr (kind, e)) ↦
          rw e (settled-Sound _ _ ((Safe-handler kind payload).at p.backend h).0)
    ]

    settled-committed :
        (r : Result (Unit {0})) (b : Backend sql redis) → (settled r b).db ≡ (settled r b).committed
    unfolding settled
    settled-committed (ok done) b = refl
    settled-committed (err e) b = refl

    pub turn-committed :
        (ws : Socket) (payload : Payload) (p : Process sql redis)
        → p.backend.db ≡ p.backend.committed
        → let b' = (turn out ws payload u room p).1.backend in b'.db ≡ b'.committed
    turn-committed ws payload p h = elim (turn-Turned ws payload p) [
      | inl same ↦ rw same h
      | inr (inl back) ↦ rw back refl
      | inr (inr (kind, e)) ↦ rw e (settled-committed _ _)
    ]

  pub on_backend-Sound :
      {A : Type 0} (m : Exec (Backend sql redis) A) (p : Process sql redis)
      → Safe m
      → Sound p.backend
      → Sound (on_backend out m p).1.backend
  on_backend-Sound m p k h = (k.at p.backend h).0

  pub last_seen-Sound :
      (u : ℕ) (p : Process sql redis)
      → Sound p.backend
      → Sound
          (suppress out
            (do on_backend out (update_last_seen out.now u); on_backend out commit)
            p).1.backend
  unfolding update_last_seen
  last_seen-Sound u p h =
      let h' = ((Safe-update_last_seen out.now u).at p.backend h).0 in
      record { db = h'.db; committed = h'.db }
