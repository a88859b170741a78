-- ===== src/Examples/Messages.antt =====
-- A chat message on its way from a client to the sockets of a process.
use fastapi_realtime_chat.Prelude.{
  ◌≡◌, refl, Bool, true, false, ◌++◌, Option, none, some, [], ◌∷◌, map, if◌then◌else◌, ◌==◌, Text,
  codes, nat_eq, text_eq, filter,
}
use fastapi_realtime_chat.Dict.{get_or, values}
use fastapi_realtime_chat.Exec.{ok}
use fastapi_realtime_chat.Uuid
use fastapi_realtime_chat.Sql.ListTables.{list_tables}
use fastapi_realtime_chat.Protocol.{Socket, Event, send}
use fastapi_realtime_chat.Backend.{Db}
use fastapi_realtime_chat.Messages.{message_fits}
use fastapi_realtime_chat.Chat.{room_channel}
use fastapi_realtime_chat.Chat.Sending.{stored}
use fastapi_realtime_chat.ConnectionManager.{ConnectionManager}
use fastapi_realtime_chat.Subscriber.{handle_message}
use fastapi_realtime_chat.WebSocket.{is_expired, turn}
use fastapi_realtime_chat.WebSocket.Delivery.{sent, turn_delivered}
use fastapi_realtime_chat.Examples.World.{at_id, alice, world, room_text}
use fastapi_realtime_chat.Examples.Sessions.{out, started, payload, parse_room}

abbrev all_alive : Socket → Bool
all_alive ws = true

abbrev hi : Event
hi = sent out 1 alice room_text 7 payload started

-- JSON of which one text is known.
abbrev loads : Text → Option Event
loads raw = if raw == codes "{}" then some hi else none

abbrev with_hi : Db list_tables
with_hi = stored (at_id 50) 7 1 (some (codes "hi")) none world

turn_delivered_example :
    let (x, p') = turn out 1 payload alice room_text started in
    ((x ≡ ok tt)
      × (p'.backend ≡ record world {
        db = with_hi;
        committed = with_hi;
        published = [] ++ (room_channel (Uuid.str 7), hi) ∷ [];
      })
      × (p'.manager ≡ started.manager)
      × (p'.outputs ≡ [])
      × (is_expired (p'.sessions 1) ≡ false))
    × ((m : ConnectionManager)
        → (handle_message all_alive loads (room_channel (Uuid.str 7)) (codes "{}") m).0
          ≡ map (λ ws. send ws hi) (filter all_alive (values (get_or [] (Uuid.str 7) m.rooms))))
unfolding message_fits
turn_delivered_example =
    turn_delivered out 1 alice room_text 7 payload started all_alive loads (codes "{}") refl refl
      refl parse_room refl refl refl refl refl
