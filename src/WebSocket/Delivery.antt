-- ===== src/WebSocket/Delivery.antt =====
-- A chat message from the client who sends it, through app/websocket/router.py, the handler, the
-- service and Redis, to the sockets of every process.
use fastapi_realtime_chat.Prelude.{
  ℕ, ◌≡◌, ◌∙◌, Bool, true, false, ◌&&◌, Option, some, [], ◌∷◌, ◌++◌, map, arith, Text, codes,
  nat_eq, text_eq, beq_refl, filter,
}
use fastapi_realtime_chat.Dict.{get_or, values}
use fastapi_realtime_chat.Uuid
use fastapi_realtime_chat.Exec.{ok}
use fastapi_realtime_chat.Sql.{Sql, select_where}
use fastapi_realtime_chat.Redis.{Redis}
use fastapi_realtime_chat.Protocol.{Socket, Event, chat_message, send}
use fastapi_realtime_chat.Models.{User}
use fastapi_realtime_chat.Messages.{new_message, message_fits, load}
use fastapi_realtime_chat.Backend.{Backend}
use fastapi_realtime_chat.Rooms.{has_user_id}
use fastapi_realtime_chat.Rooms.Membership.{members_of}
use fastapi_realtime_chat.Chat.{MessageResponse, room_channel, message_to_ws, send_message}
use fastapi_realtime_chat.Chat.Sending.{stored, send_message_lem}
use fastapi_realtime_chat.ConnectionManager.{ConnectionManager}
use fastapi_realtime_chat.Subscriber.{handle_message}
use fastapi_realtime_chat.Subscriber.FanOut.{room_fan_out}
use fastapi_realtime_chat.Handlers.{
  Payload, Outside, is_empty, kind_of, handler, handle_chat_message,
}
use fastapi_realtime_chat.WebSocket.{Process, is_expired, run_handler, handle_safely, turn}

module _ {sql : Sql} {redis : Redis} (out : Outside) (ws : Socket) (u : User) (room : Text) (r : ℕ)
    (payload : Payload) (p : Process sql redis) where
  -- The event, as the client's message and the account of the sender make it.
  abbrev pub sent : Event
  sent = chat_message (record {
    id = Uuid.str (out.fresh 0).id;
    room_id = Uuid.str r;
    sender_id = Uuid.str u.id;
    sender_username = u.username;
    sender_display_name = u.display_name;
    sender_avatar_url = u.avatar_url;
    content = payload.content;
    image_url = payload.image_url;
    created_at = (out.fresh 0).now;
  })

  wire :
      select_where sql (has_user_id u.id) p.backend.db.users ≡ u ∷ []
      → chat_message (
          message_to_ws (
            load
              (stored (out.fresh 0) r u.id payload.content payload.image_url p.backend)
              (new_message (out.fresh 0) r u.id payload.content payload.image_url)))
        ≡ sent
  unfolding message_to_ws
  wire known = ground (arith, known)

  -- A handler that returns is committed, and expires nothing.
  turn-sends :
      payload.type ≡ some (codes "chat_message")
      → is_empty payload.content && is_empty payload.image_url ≡ false
      → Uuid.parse room ≡ some r
      → is_expired (p.sessions ws) ≡ false
      → (b : Backend sql redis) (a : MessageResponse)
      → send_message (out.fresh 0) r u.id payload.content payload.image_url p.backend ≡ (ok a, b)
      → let (x, p') = turn out ws payload u room p in
        (x ≡ ok tt)
        × (p'.backend ≡ record b { committed = b.db })
        × (p'.manager ≡ p.manager)
        × (p'.outputs ≡ p.outputs)
        × (is_expired (p'.sessions ws) ≡ false)
  unfolding turn kind_of handle_safely run_handler handler handle_chat_message
  turn-sends typed full parsed loaded b a sends = ground (arith, sends, beq_refl {A = Socket} ws)

  -- A member whose account is in the tables, and still held by the session, sends a chat message
  -- that is not empty and fits, with Redis up: the endpoint stores and commits it, publishes it once,
  -- on the channel of the room, with the content and the sender as they are, and sends nothing
  -- itself; whatever process takes it from there sends it, if JSON gives it back as it was, once to
  -- each live socket that it has registered under the canonical text of the room's id, and to no
  -- other.
  pub turn_delivered :
      (alive : Socket → Bool) (loads : Text → Option Event) (raw : Text)
      → loads raw ≡ some sent
      → payload.type ≡ some (codes "chat_message")
      → is_empty payload.content && is_empty payload.image_url ≡ false
      → Uuid.parse room ≡ some r
      → is_expired (p.sessions ws) ≡ false
      → select_where sql (has_user_id u.id) p.backend.db.users ≡ u ∷ []
      → members_of r u.id p.backend.db ≡ 1
      → message_fits
          (new_message (out.fresh 0) r u.id payload.content payload.image_url)
          u.id
          p.backend.db
        ≡ true
      → p.backend.redis_up ≡ true
      → let db = stored (out.fresh 0) r u.id payload.content payload.image_url p.backend in
        let channel = room_channel (Uuid.str r) in
        let (x, p') = turn out ws payload u room p in
        ((x ≡ ok tt)
          × (p'.backend ≡ record p.backend {
            db = db;
            committed = db;
            published = p.backend.published ++ (channel, sent) ∷ [];
          })
          × (p'.manager ≡ p.manager)
          × (p'.outputs ≡ p.outputs)
          × (is_expired (p'.sessions ws) ≡ false))
        × ((m : ConnectionManager)
            → (handle_message alive loads channel raw m).0
              ≡ map (λ ws'. send ws' sent) (filter alive (values (get_or [] (Uuid.str r) m.rooms))))
  turn_delivered alive loads raw e typed full parsed loaded known one fits up =
      let b = p.backend in
      let done =
        send_message_lem (out.fresh 0) r u.id payload.content payload.image_url b one fits up in
      let (x, backend, registry, calls, held) = turn-sends typed full parsed loaded _ _ done in
      (
        (x, (rw (wire known) at backend), registry, calls, held),
        λ m. (room_fan_out alive loads (Uuid.str r) raw m).0 ∙ ground arith,
      )
