-- ===== src/Api/Outsiders.antt =====
-- What a user who is not in a room gets of it over HTTP and at the WebSocket endpoint:
-- app/api/v1/endpoints/rooms.py, messages.py there, and app/websocket/router.py.
use fastapi_realtime_chat.Prelude.{
  ℕ, ◌≡◌, false, Option, some, List, [], ◌∷◌, ◌++◌, arith, Text, codes, nat_eq, text_eq,
}
use fastapi_realtime_chat.Exec.{
  authorization_error, forbidden_exception, bad_request_exception, ok, err,
}
use fastapi_realtime_chat.Uuid
use fastapi_realtime_chat.Sql.{Sql}
use fastapi_realtime_chat.Redis.{Redis}
use fastapi_realtime_chat.Protocol.{Socket, close}
use fastapi_realtime_chat.Models.{User, ChatRoom, Fresh}
use fastapi_realtime_chat.Backend.{Backend}
use fastapi_realtime_chat.Rooms.{is_public, get_by_id, get_with_members}
use fastapi_realtime_chat.RoomService.{get_room_detail, leave_room}
use fastapi_realtime_chat.Rooms.Membership.{members_of, is_member_lem}
use fastapi_realtime_chat.Chat.{get_room_history, mark_messages_read, send_message}
use fastapi_realtime_chat.Chat.Sending.{require_member_lem}
use fastapi_realtime_chat.Handlers.{Outside}
use fastapi_realtime_chat.WebSocket.{Process, Incoming, websocket_chat}
use fastapi_realtime_chat.WebSocket.Lifecycle.{websocket_chat_outsider}
use fastapi_realtime_chat.Api.{get_room, get_messages, mark_read_endpoint, leave_room_endpoint}

abbrev not_a_member : Text
not_a_member = codes "You are not a member of this room"

module _ {sql : Sql} {redis : Redis} where
  module _ (r : ℕ) (u : User) (s : Backend sql redis) (absent : members_of r u.id s.db ≡ 0) where
    outsider-get_messages :
        (page page_size : ℕ)
        → get_messages r page page_size u s ≡ (err (forbidden_exception not_a_member), s)
    unfolding get_messages get_room_history
    outsider-get_messages page page_size = ground (arith, require_member_lem r u.id s)

    outsider-mark_read :
        (fresh : ℕ → Fresh) (ids : List ℕ)
        → mark_read_endpoint fresh r ids u s ≡ (err (forbidden_exception not_a_member), s)
    unfolding mark_read_endpoint mark_messages_read
    outsider-mark_read fresh ids = ground (arith, require_member_lem r u.id s)

    outsider-send_message :
        (fresh : Fresh) (content image_url : Option Text)
        → send_message fresh r u.id content image_url s
          ≡ (err (authorization_error not_a_member), s)
    unfolding send_message
    outsider-send_message fresh content image_url = ground (arith, require_member_lem r u.id s)

    module _ (room : ChatRoom) (e : get_by_id r s ≡ (ok (some room), s)) where
      outsider-get_room :
          is_public room.room_type ≡ false
          → get_room r u s ≡ (err (forbidden_exception not_a_member), s)
      unfolding get_room get_room_detail get_with_members get_by_id
      outsider-get_room private_room = ground (arith, is_member_lem r u.id s)

      outsider-leave_room :
          leave_room_endpoint r u s
          ≡ (err (bad_request_exception (codes "Not a member of this room")), s)
      unfolding leave_room_endpoint leave_room get_by_id
      outsider-leave_room = ground (arith, is_member_lem r u.id s)

  -- A user who is not in a room that exists and is not public is refused what members may do, though
  -- not to join. The details of the room, its
  -- messages and read receipts are refused with 403, a leave with 400, a message by the service,
  -- and a connection is closed with 4003; none of them changes anything, but for that close.
  pub outsider_refused :
      (out : Outside) (ws : Socket) (u : User) (text : Text) (r : ℕ) (room : ChatRoom)
      (p : Process sql redis)
      → let s = p.backend in
        Uuid.parse text ≡ some r
        → get_by_id r s ≡ (ok (some room), s)
        → is_public room.room_type ≡ false
        → members_of r u.id s.db ≡ 0
        → let forbidden = forbidden_exception (codes "You are not a member of this room") in
          (get_room r u s ≡ (err forbidden, s))
          × ((page page_size : ℕ) → get_messages r page page_size u s ≡ (err forbidden, s))
          × ((fresh : ℕ → Fresh) (ids : List ℕ)
              → mark_read_endpoint fresh r ids u s ≡ (err forbidden, s))
          × ((fresh : Fresh) (content image_url : Option Text)
              → send_message fresh r u.id content image_url s
                ≡ (err (authorization_error (codes "You are not a member of this room")), s))
          × (leave_room_endpoint r u s
              ≡ (err (bad_request_exception (codes "Not a member of this room")), s))
          × ((incoming : List Incoming)
              → websocket_chat out ws u text incoming p
                ≡ (ok tt, record p { outputs = p.outputs ++ close ws 4003 ∷ [] }))
  outsider_refused out ws u text r room p parsed e private_room absent =
      let s = p.backend in
      (
        outsider-get_room r u s absent room e private_room,
        outsider-get_messages r u s absent,
        outsider-mark_read r u s absent,
        outsider-send_message r u s absent,
        outsider-leave_room r u s absent room e,
        λ incoming. websocket_chat_outsider out ws u text incoming p r parsed absent,
      )
