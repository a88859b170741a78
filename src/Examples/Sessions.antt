-- ===== src/Examples/Sessions.antt =====
-- Connections of a member and of an outsider, and what Redis says afterwards.
use fastapi_realtime_chat.Prelude.{
  ltb, Option, ℕ, ◌+◌, ◌≡◌, refl, ◌∙◌, true, false, none, some, List, [], ◌∷◌, arith, nat_beq, ◌==◌,
  Text, codes, nat_eq, text_eq, beq_refl,
}
use fastapi_realtime_chat.Exec.{
  written_if, ok, err, redis_error, integrity_error, missing_greenlet, authorization_error,
  forbidden_exception, bad_request_exception,
}
use fastapi_realtime_chat.Models.{Fresh}
use fastapi_realtime_chat.Rooms.{get_by_id, is_member, get_member}
use fastapi_realtime_chat.Chat.{send_message, mark_messages_read, require_member}
use fastapi_realtime_chat.Protocol.{close}
use fastapi_realtime_chat.Api.{get_room, get_messages, mark_read_endpoint, leave_room_endpoint}
use fastapi_realtime_chat.Api.Outsiders.{outsider_refused}
use fastapi_realtime_chat.Uuid
use fastapi_realtime_chat.Uuid.RoundTrip.{parse-str}
use fastapi_realtime_chat.Sql.ListTables.{list_tables}
use fastapi_realtime_chat.Redis.KeyList.{key_list}
use fastapi_realtime_chat.Presence.{default_ttl, set_online, is_online}
use fastapi_realtime_chat.Presence.Heartbeat.{wait}
use fastapi_realtime_chat.ConnectionManager.{ConnectionManager, init, connect, is_connected}
use fastapi_realtime_chat.ConnectionManager.Laws.{registered, registered-connect}
use fastapi_realtime_chat.ConnectionManager.Consistent.{
  IsConsistent, init-IsConsistent, connect-IsConsistent,
}
use fastapi_realtime_chat.Handlers.{
  Payload, Outside, chat_message, mark_read, kind_of, handler, handle_mark_read,
}
use fastapi_realtime_chat.WebSocket.{
  Process, Incoming, message, malformed, in_transaction, message_loop, run_handler, handle_safely,
  cleanup, websocket_chat,
}
use fastapi_realtime_chat.Messages
use fastapi_realtime_chat.Messages.{insert_receipts, receipt_fits}
use fastapi_realtime_chat.WebSocket.Expiry.{failed_message_lingers}
use fastapi_realtime_chat.WebSocket.Cleanup.{offline_while_connected, replaced_socket_lost}
use fastapi_realtime_chat.WebSocket.Dispatch.{handle_safely_atomic}
use fastapi_realtime_chat.WebSocket.Lifecycle.{
  Ended, opened, websocket_chat_ends, websocket_chat_leaks,
}
use fastapi_realtime_chat.Examples.World.{at_id, alice, bob, team, world_db, world, room_text}

abbrev pub out : Outside
out = record {
  alive = λ ws. nat_beq ws 1;
  settings = default_ttl;
  now = 100;
  fresh = λ i. at_id (50 + i);
}

abbrev pub started : Process list_tables key_list
started = record { manager = init; backend = world; outputs = []; sessions = λ _. in_transaction }

abbrev pub payload : Payload
payload = record {
  type = some (codes "chat_message");
  content = some (codes "hi");
  image_url = none;
  message_ids = none;
}

-- She marks a message as read that is not there.
abbrev pub reads : Payload
reads = record {
  type = some (codes "mark_read");
  content = none;
  image_url = none;
  message_ids = some (Uuid.str 99 ∷ []);
}

abbrev pub frames : List Incoming
frames = message out.fresh payload ∷ message out.fresh reads ∷ malformed ∷ []

pub parse_room : Uuid.parse room_text ≡ some 7
parse_room = parse-str 7 (omega arith)

websocket_chat_ends_example :
    let x = websocket_chat out 1 alice room_text frames started in
    (registered room_text (Uuid.str 1) x.1.manager ≡ none)
    × IsConsistent x.1.manager
    × Ended out 1 alice room_text
        (message_loop out 1 alice room_text frames (opened out 1 alice room_text started)).1
        x
websocket_chat_ends_example =
    websocket_chat_ends out 1 alice room_text frames started 7 (omega arith) (omega arith)
      parse_room refl refl init-IsConsistent

abbrev without_redis : Process list_tables key_list
without_redis = record started { backend = record world { redis_up = false } }

websocket_chat_leaks_example :
    let x = websocket_chat out 1 alice room_text frames without_redis in
    (x.0 ≡ err redis_error) × (registered room_text (Uuid.str 1) x.1.manager ≡ some 1)
websocket_chat_leaks_example =
    websocket_chat_leaks out 1 alice room_text frames without_redis 7 parse_room refl refl

abbrev unread : Process list_tables key_list
unread = opened out 1 alice room_text started

reads_raise :
    (run_handler (record out { fresh = out.fresh }) 1 mark_read reads alice room_text unread).0
    ≡ err integrity_error
unfolding opened set_online run_handler handler handle_mark_read Uuid.parse Uuid.str
    mark_messages_read insert_receipts Messages.mark_read receipt_fits is_member get_member
    require_member
reads_raise = refl

failed_message_lingers_example :
    let (x, p') =
      websocket_chat out 1 alice room_text
        (message out.fresh reads ∷ message out.fresh payload ∷ [])
        started in
    (x ≡ err missing_greenlet)
    × (registered room_text (Uuid.str 1) p'.manager ≡ none)
    × ((d : ℕ)
        → (is_online (Uuid.str 1) (wait d p'.backend)).0
          ≡ ok (ltb d default_ttl.presence_ttl_seconds))
unfolding kind_of Uuid.parse Uuid.str
failed_message_lingers_example =
    failed_message_lingers out 1 alice room_text out.fresh reads (message out.fresh payload ∷ [])
      started 7 integrity_error (omega arith) (omega arith) parse_room refl refl init-IsConsistent
      refl reads_raise

handle_safely_atomic_example :
    let p' = (handle_safely out 1 chat_message payload alice room_text started).1 in
    let handled_at = run_handler out 1 chat_message payload alice room_text started in
    (p'.backend.db ≡ p'.backend.committed)
    × (p'.backend.committed ≡ written_if handled_at.0 handled_at.1.backend.db world_db)
handle_safely_atomic_example =
    handle_safely_atomic out 1 alice room_text chat_message payload started

-- Alice is in two rooms of the registry.
abbrev two_rooms : ConnectionManager
two_rooms = (connect 1 (codes "other") (Uuid.str 1) (connect 1 room_text (Uuid.str 1) init).1).1

abbrev in_two_rooms : Process list_tables key_list
in_two_rooms = record started { manager = two_rooms }

two_rooms-IsConsistent : IsConsistent two_rooms
two_rooms-IsConsistent =
    connect-IsConsistent 1 (codes "other") (Uuid.str 1) (connect 1 room_text (Uuid.str 1) init).1
      (connect-IsConsistent 1 room_text (Uuid.str 1) init init-IsConsistent)

other_room : (room_text == codes "other") ≡ false
unfolding Uuid.str
other_room = refl

in_other : registered (codes "other") (Uuid.str 1) two_rooms ≡ some 1
in_other =
    registered-connect (codes "other") (Uuid.str 1) (codes "other") (Uuid.str 1)
      (connect 1 room_text (Uuid.str 1) init).1 1
    ∙ ground (arith, beq_refl {A = Text} (Uuid.str 1))

offline_while_connected_example :
    (is_connected (Uuid.str 1) (cleanup out 1 alice room_text in_two_rooms).1.manager ≡ true)
    × ((is_online (Uuid.str 1) (wait 0 (cleanup out 1 alice room_text in_two_rooms).1.backend)).0
        ≡ ok false)
offline_while_connected_example =
    offline_while_connected out 1 alice room_text in_two_rooms refl refl two_rooms-IsConsistent
      (codes "other") 1 other_room in_other 0

replaced_socket_lost_example :
    let again : Process list_tables key_list = record started {
      manager = (connect 1 room_text (Uuid.str 1) init).1;
    } in
    (registered room_text (Uuid.str 1) again.manager ≡ some 1)
    × (registered room_text (Uuid.str 1) (cleanup out 1 alice room_text again).1.manager ≡ none)
    × ((d : ℕ)
        → (is_online (Uuid.str 1) (wait d (cleanup out 1 alice room_text again).1.backend)).0
          ≡ ok false)
replaced_socket_lost_example =
    replaced_socket_lost out 1 alice room_text started refl refl init-IsConsistent 1

found_team : get_by_id 7 world ≡ (ok (some team), world)
unfolding get_by_id
found_team = refl

-- Bob is not in the room of Alice.
outsider_refused_example :
    let forbidden = forbidden_exception (codes "You are not a member of this room") in
    (get_room 7 bob world ≡ (err forbidden, world))
    × ((page page_size : ℕ) → get_messages 7 page page_size bob world ≡ (err forbidden, world))
    × ((fresh : ℕ → Fresh) (ids : List ℕ)
        → mark_read_endpoint fresh 7 ids bob world ≡ (err forbidden, world))
    × ((fresh : Fresh) (content image_url : Option Text)
        → send_message fresh 7 2 content image_url world
          ≡ (err (authorization_error (codes "You are not a member of this room")), world))
    × (leave_room_endpoint 7 bob world
        ≡ (err (bad_request_exception (codes "Not a member of this room")), world))
    × ((incoming : List Incoming)
        → websocket_chat out 1 bob room_text incoming started
          ≡ (ok tt, record started { outputs = close 1 4003 ∷ [] }))
outsider_refused_example =
    outsider_refused out 1 bob room_text 7 team started parse_room found_team refl refl
