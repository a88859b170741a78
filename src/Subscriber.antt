-- ===== src/Subscriber.antt =====
-- The bridge from Redis to the sockets of a process: app/events/redis_subscriber.py.
pub mod FanOut
pub mod Delivery
pub mod Reconnect
use fastapi_realtime_chat.Prelude.{
  Bool, not, ◌&&◌, ◌||◌, Option, none, some, List, [], ◌∷◌, ◌++◌, if◌then◌else◌, ◌==◌, Text, codes,
  nat_eq, text_eq, strip_prefix,
}
use fastapi_realtime_chat.Dict.{keys}
use fastapi_realtime_chat.Protocol.{Socket, Event, Output}
use fastapi_realtime_chat.Presence.{presence_channel}
use fastapi_realtime_chat.ConnectionManager.{ConnectionManager, broadcast_to_room}

-- A message of `pubsub.listen()`.
pub record Received : Type 0 where
  pub type : Text
  pub channel : Text
  pub raw : Text

module _ (alive : Socket → Bool) where
  -- The loop over the rooms, whose ids were copied before.
  unfoldable pub broadcast_rooms :
      Event → List Text → ConnectionManager → List Output × ConnectionManager
  broadcast_rooms payload [] m = ([], m)
  broadcast_rooms payload (room_id ∷ room_ids) m =
      let (sent, m') = broadcast_to_room alive room_id payload m in
      let (rest, m'') = broadcast_rooms payload room_ids m' in (sent ++ rest, m'')

  abbrev pub to_channel : Text → Event → ConnectionManager → List Output × ConnectionManager
  to_channel channel payload m = elim (strip_prefix (codes "channel:room:") channel) [
    | some room_id ↦ broadcast_to_room alive room_id payload m
    | none ↦ elim (strip_prefix (codes "channel:typing:") channel) [
      | some room_id ↦ broadcast_to_room alive room_id payload m
      | none ↦
          if channel == presence_channel then broadcast_rooms payload (keys m.rooms) m else ([], m)
    ]
  ]

  module _ (loads : Text → Option Event) where
    -- `_handle_message`; `loads` is `json.loads`, and `none` its error.
    unfoldable pub handle_message :
        (channel raw : Text) → ConnectionManager → List Output × ConnectionManager
    handle_message channel raw m = elim (loads raw) [
      | none ↦ ([], m)
      | some payload ↦ to_channel channel payload m
    ]

    -- A message that is no subscription's confirmation, and has data, is handled.
    abbrev pub receive : Received → ConnectionManager → List Output × ConnectionManager
    receive message m =
        let is_data =
          (message.type == codes "message" || message.type == codes "pmessage")
          && not (message.raw == []) in
        if is_data then handle_message message.channel message.raw m else ([], m)

    -- The loop of `run_subscriber` over the messages of a connection, each task run to its end.
    unfoldable pub listen : List Received → ConnectionManager → List Output × ConnectionManager
    listen [] m = ([], m)
    listen (message ∷ messages) m =
        let (sent, m') = receive message m in
        let (rest, m'') = listen messages m' in (sent ++ rest, m'')
