-- ===== src/Subscriber/Delivery.antt =====
-- A chat message from the member who sends it to the sockets of every process.
use fastapi_realtime_chat.Prelude.{
  ℕ, ◌≡◌, ap, ◌∙◌, Bool, true, Option, some, [], ◌∷◌, ◌++◌, map, arith, Text, nat_eq, text_eq,
  filter,
}
use fastapi_realtime_chat.Dict.{get_or, values}
use fastapi_realtime_chat.Uuid
use fastapi_realtime_chat.Sql.{Sql}
use fastapi_realtime_chat.Redis.{Redis}
use fastapi_realtime_chat.Protocol.{Socket, Event, chat_message, send}
use fastapi_realtime_chat.Models.{Fresh}
use fastapi_realtime_chat.Backend.{Backend}
use fastapi_realtime_chat.Messages.{new_message, message_fits, load}
use fastapi_realtime_chat.Rooms.Membership.{members_of}
use fastapi_realtime_chat.Chat.{room_channel, message_to_ws, send_message}
use fastapi_realtime_chat.Chat.Sending.{stored, send_message_lem}
use fastapi_realtime_chat.ConnectionManager.{ConnectionManager}
use fastapi_realtime_chat.Subscriber.{handle_message}
use fastapi_realtime_chat.Subscriber.FanOut.{room_fan_out}

module _ {sql : Sql} {redis : Redis} where
  module _ (fresh : Fresh) (r u : ℕ) (content image_url : Option Text) (s : Backend sql redis) where
    -- What the message is on the wire.
    abbrev pub event : Event
    event = chat_message (
        message_to_ws
          (load (stored fresh r u content image_url s) (new_message fresh r u content image_url)))

    -- A member's message that fits, with Redis up, is published once, on one channel; whatever
    -- process takes it from there sends it, if JSON gives it back as it was, once to each live
    -- socket that it has registered under the text of the room's id, and to no other.
    pub chat_message_delivered :
        (alive : Socket → Bool) (loads : Text → Option Event) (raw : Text)
        → loads raw ≡ some event
        → members_of r u s.db ≡ 1
        → message_fits (new_message fresh r u content image_url) u s.db ≡ true
        → s.redis_up ≡ true
        → (channel : Text) × ((send_message fresh r u content image_url s).1.published
            ≡ s.published ++ (channel, event) ∷ [])
          × ((m : ConnectionManager)
              → (handle_message alive loads channel raw m).0
                ≡ map
                    (λ ws. send ws event)
                    (filter alive (values (get_or [] (Uuid.str r) m.rooms))))
    chat_message_delivered alive loads raw e one fits up = (
      room_channel (Uuid.str r),
      ap (λ x. x.1.published) (send_message_lem fresh r u content image_url s one fits up),
      λ m. (room_fan_out alive loads (Uuid.str r) raw m).0 ∙ ground arith,
    )
