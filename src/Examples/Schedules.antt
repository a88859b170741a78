-- ===== src/Examples/Schedules.antt =====
-- A member's endpoint on two sockets, step by step.
use fastapi_realtime_chat.Prelude.{
  ℕ, ◌≡◌, refl, Bool, ◌⊎◌, [], true, false, some, none, arith, Text, codes, nat_eq, text_eq,
}
use fastapi_realtime_chat.Exec.{ok}
use fastapi_realtime_chat.Uuid
use fastapi_realtime_chat.Sql.ListTables.{list_tables}
use fastapi_realtime_chat.Redis.KeyList.{key_list, later, get}
use fastapi_realtime_chat.Protocol.{Socket, pong, send}
use fastapi_realtime_chat.Presence.{default_ttl, is_online}
use fastapi_realtime_chat.Presence.Heartbeat.{wait}
use fastapi_realtime_chat.ConnectionManager.{broadcast_to_room, is_connected, total_connections}
use fastapi_realtime_chat.ConnectionManager.Laws.{registered}
use fastapi_realtime_chat.Rooms.{is_member, get_member}
use fastapi_realtime_chat.Server.{
  Server, Reach, here, next, writes, starting, enters, announces, takes, leaves, fails, signs_off,
  passes,
}
use fastapi_realtime_chat.Server.Invariant.{holds, shows}
use fastapi_realtime_chat.Server.Quiet.{is_over, has_failed, all_over_clean, registered_served}
use fastapi_realtime_chat.Server.Admission.{AllOf, Admitted, broadcast-Admitted}
use fastapi_realtime_chat.Handlers.{Payload, kind_of, handler, handle_mark_read}
use fastapi_realtime_chat.Chat.{mark_messages_read}
use fastapi_realtime_chat.WebSocket.{Process, is_expired, turn, run_handler, handle_safely}
use fastapi_realtime_chat.Messages.{insert_receipts, mark_read, receipt_fits}
use fastapi_realtime_chat.Examples.World.{alice, room_text}
use fastapi_realtime_chat.Examples.Sessions.{out, started, reads, parse_room}

nobody : (u : Text) (d : ℕ) → (is_online u (wait d started.backend)).0 ≡ ok false
unfolding is_online later get
nobody u d = refl

alice-is_member : (is_member 7 1 started.backend).0 ≡ ok true
unfolding is_member get_member
alice-is_member = refl

abbrev ping : Payload
ping = record { type = some (codes "ping"); content = none; image_url = none; message_ids = none }

-- Alice comes on two sockets and is shown by both, the first sends a message, a request publishes
-- and changes a table, and time passes.
abbrev serves : (t : Server list_tables key_list) × Reach default_ttl (starting started) t
serves = (
  _,
  next out refl
      (writes started.backend.db started.backend.db [] (
        next out refl
          (next out refl
            (next out refl
              (next out refl
                (next out refl here (enters 1 alice room_text 7 refl parse_room alice-is_member))
                (enters 2 alice room_text 7 refl parse_room alice-is_member))
              (announces 1 alice room_text refl))
            (announces 2 alice room_text refl))
          (takes 1 alice room_text ping refl)))
      (passes 10),
)

registered_served_example :
    ((r u : Text) (ws : Socket)
      → registered r u serves.0.process.manager ≡ some ws
      → holds r u (serves.0.task ws) ≡ true)
    × ((u : Text) (d : ℕ)
        → (is_online u (wait d serves.0.process.backend)).0 ≡ ok true
        → (ws : Socket) × (shows u (serves.0.task ws) ≡ true))
registered_served_example =
    registered_served default_ttl (omega arith) (omega arith) started refl nobody serves.0 serves.1

abbrev spoiled : Process list_tables key_list
spoiled = (turn out 2 reads alice room_text serves.0.process).1

first_held : is_expired (spoiled.sessions 1) ≡ false
unfolding turn run_handler handle_safely kind_of handler handle_mark_read Uuid.parse
    mark_messages_read insert_receipts mark_read receipt_fits is_member get_member Uuid.str
    fastapi_realtime_chat.Chat.require_member
first_held = refl

second_lost : is_expired (spoiled.sessions 2) ≡ true
unfolding turn run_handler handle_safely kind_of handler handle_mark_read Uuid.parse
    mark_messages_read insert_receipts mark_read receipt_fits is_member get_member Uuid.str
    fastapi_realtime_chat.Chat.require_member
second_lost = refl

-- Both sockets close, after a failing message on the second, whose endpoint fails in turn.
abbrev empty : (t : Server list_tables key_list) × Reach default_ttl (starting started) t
empty = (
  _,
  next out refl
      (next out refl
        (next out refl
          (next out refl (next out refl serves.1 (takes 2 alice room_text reads refl))
            (leaves 1 alice room_text refl))
          (leaves 2 alice room_text refl))
        (signs_off 1 alice room_text refl first_held))
      (fails 2 alice room_text refl second_lost),
)

empty-is_over : (ws : Socket) → is_over (empty.0.task ws) ≡ true
unfolding is_over
empty-is_over ws = ground arith

all_over_clean_example :
    ((u : Text) → is_connected u empty.0.process.manager ≡ false)
    × (total_connections empty.0.process.manager ≡ 0)
    × ((u : Text) (d : ℕ)
        → ((is_online u (wait d empty.0.process.backend)).0 ≡ ok false)
          ⊎ ((ws : Socket) × (has_failed u (empty.0.task ws) ≡ true)))
all_over_clean_example =
    all_over_clean default_ttl (omega arith) (omega arith) started refl nobody empty.0 empty.1
      empty-is_over

-- Every socket takes messages.
abbrev every : Socket → Bool
every ws = true

broadcast-Admitted_example :
    AllOf
      (λ o.
        (ws : Socket) × (u : Text) × (o ≡ send ws pong)
        × (holds room_text u (serves.0.task ws) ≡ true)
        × Admitted default_ttl (starting started) serves.0 u room_text)
      (broadcast_to_room every room_text pong serves.0.process.manager).0
broadcast-Admitted_example =
    broadcast-Admitted default_ttl (omega arith) (omega arith) started refl nobody serves.0 serves.1
      every room_text pong
