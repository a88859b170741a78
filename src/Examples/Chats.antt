-- ===== src/Examples/Chats.antt =====
-- Rooms and messages of a small database.
use fastapi_realtime_chat.Prelude.{
  ℕ, ◌+◌, ◌≡◌, refl, ◌⊎◌, false, not, ◌&&◌, Option, none, some, List, [], ◌∷◌, arith, nat_beq,
  if◌then◌else◌, Text, codes, nat_eq, text_eq,
}
use fastapi_realtime_chat.Exec.{Result, ok, err, redis_error}
use fastapi_realtime_chat.Sql.{count_where}
use fastapi_realtime_chat.Sql.ListTables.{list_tables}
use fastapi_realtime_chat.Redis.KeyList.{key_list}
use fastapi_realtime_chat.Models.{ChatRoom, RoomMember, Message}
use fastapi_realtime_chat.Backend.{Db, Backend}
use fastapi_realtime_chat.Rooms.{
  get_by_id, new_member, new_room, is_member, get_member, add_member, member_fits, room_fits,
  insert_room, member_count,
}
use fastapi_realtime_chat.RoomService.{join_room, create_room}
use fastapi_realtime_chat.Messages.{
  new_message, visible_in, sender_is_not, unread_by, is_in, message_fits, create_with_sender,
  receipt_fits, insert_receipts, mark_read, count_unread,
}
use fastapi_realtime_chat.Messages.Receipts.{occurrences, receipts_of, receipts_of-mark_read}
use fastapi_realtime_chat.Messages.Unread.{count_unread-mark_read}
use fastapi_realtime_chat.Chat.{require_member, send_message, MessageResponse}
use fastapi_realtime_chat.Chat.Sending.{stored, send_message_err}
use fastapi_realtime_chat.Api.{create_room_endpoint}
use fastapi_realtime_chat.Responses.{RoomResponse, room_response}
use fastapi_realtime_chat.Examples.World.{at_id, bob, request, world_db, world}

abbrev bob_member : RoomMember
bob_member = new_member (at_id 11) 7 2 false

abbrev joined : Result RoomMember × Backend list_tables key_list
joined = join_room (at_id 11) 7 bob world

bob_joins : joined.0 ≡ ok bob_member
unfolding join_room get_by_id is_member get_member add_member member_fits
bob_joins = refl

abbrev created : Result ChatRoom × Backend list_tables key_list
created = create_room (at_id 8) (at_id 12) request bob world

bob_creates : created.0 ≡ ok (new_room (at_id 8) request 2)
unfolding create_room insert_room room_fits add_member member_fits
bob_creates = refl

-- Bob marks the one message, which stands twice in his list.
abbrev twice : List ℕ
twice = 20 ∷ 20 ∷ []

abbrev marked : Result (Unit {0}) × Backend list_tables key_list
marked = mark_read at_id twice 2 world

bob_marks : marked.0 ≡ ok tt
unfolding mark_read insert_receipts receipt_fits
bob_marks = refl

-- It leaves two rows.
two_receipts : receipts_of 20 2 marked.1.db ≡ 2
unfolding mark_read insert_receipts receipt_fits
two_receipts = refl

receipts_of-mark_read_example :
    receipts_of 20 2 marked.1.db
    ≡ (if nat_beq 2 2 && nat_beq (receipts_of 20 2 world_db) 0 then occurrences 20 twice else 0)
      + receipts_of 20 2 world_db
receipts_of-mark_read_example = receipts_of-mark_read at_id twice 2 world bob_marks 20 2

count_unread-mark_read_example :
    (count_unread 7 2 marked.1).0
    ≡ ok (
        count_where list_tables
          (λ m.
            visible_in 7 m
            && sender_is_not 2 m.sender_id
            && (unread_by world_db 2 m && not (nat_beq 2 2 && is_in m.id twice)))
          world_db.messages)
count_unread-mark_read_example = count_unread-mark_read at_id twice 2 world bob_marks 7 2

abbrev text : Option Text
text = some (codes "hi")

abbrev hi : Message
hi = new_message (at_id 21) 7 1 text none

abbrev with_message : Db list_tables
with_message = stored (at_id 21) 7 1 text none world

-- Alice sends while Redis is down.
abbrev redis_down : Backend list_tables key_list
redis_down = record world { redis_up = false }

abbrev unsent : Result MessageResponse × Backend list_tables key_list
unsent = send_message (at_id 21) 7 1 text none redis_down

unsent_raises : unsent.0 ≡ err redis_error
unfolding send_message require_member is_member get_member create_with_sender message_fits
unsent_raises = refl

send_message_err_example :
    (unsent.1.published ≡ [])
    × ((unsent.1 ≡ redis_down)
        ⊎ ((redis_error ≡ redis_error)
            × (false ≡ false)
            × (unsent.1 ≡ record redis_down { db = stored (at_id 21) 7 1 text none redis_down })))
send_message_err_example =
    send_message_err (at_id 21) 7 1 text none redis_down redis_error (omega arith) unsent_raises

abbrev requested : Result RoomResponse × Backend list_tables key_list
requested = create_room_endpoint (at_id 8) (at_id 12) request bob world

bob_requests : requested.0 ≡ ok (room_response (new_room (at_id 8) request 2) 1)
unfolding create_room_endpoint create_room insert_room room_fits add_member member_fits member_count
bob_requests = refl
