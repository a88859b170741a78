-- ===== src/Chat/Sending.antt =====
-- What `send_message` of app/services/chat_service.py stores, publishes and answers.
use fastapi_realtime_chat.Prelude.{
  ℕ, ◌≤◌, ◌≡◌, ◌⊎◌, true, false, Option, [], ◌∷◌, ◌++◌, arith, nat_beq, if◌then◌else◌, Text, codes,
  nat_eq, text_eq,
}
use fastapi_realtime_chat.Exec.{Error, authorization_error, integrity_error, redis_error, ok, err}
use fastapi_realtime_chat.Uuid
use fastapi_realtime_chat.Protocol.{chat_message}
use fastapi_realtime_chat.Sql.{Sql, select_where}
use fastapi_realtime_chat.Sql.Counting.{only_row}
use fastapi_realtime_chat.Redis.{Redis}
use fastapi_realtime_chat.Models.{Message, Message-discrete, Fresh}
use fastapi_realtime_chat.Backend.{Db, Backend, scalar_one}
use fastapi_realtime_chat.Rooms.Membership.{members_of, is_member_lem}
use fastapi_realtime_chat.Messages.{
  has_message_id, new_message, message_fits, create_with_sender, load,
}
use fastapi_realtime_chat.Chat.{
  room_channel, message_to_ws, message_to_response, require_member, send_message,
}

module _ {sql : Sql} {redis : Redis} where
  pub require_member_lem :
      (r u : ℕ) (s : Backend sql redis)
      → members_of r u s.db ≤ 1
      → require_member r u s ≡ (
          if nat_beq (members_of r u s.db) 1
          then (ok tt, s)
          else (err (authorization_error (codes "You are not a member of this room")), s))
  unfolding require_member
  require_member_lem r u s h = ground (arith, is_member_lem r u s)

  module _ (fresh : Fresh) (r u : ℕ) (content image_url : Option Text) (s : Backend sql redis) where
    abbrev pub msg : Message
    msg = new_message fresh r u content image_url

    -- The tables with the message.
    abbrev pub stored : Db sql
    stored = record s.db { messages = sql.insert Message msg s.db.messages }

    message_found :
        message_fits msg u s.db ≡ true
        → scalar_one (select_where sql (has_message_id fresh.id) stored.messages) ≡ ok msg
    unfolding message_fits
    message_found h =
        only_row Message-discrete (has_message_id fresh.id) msg (sql.scan Message s.db.messages)
          (sql.scan Message stored.messages) (λ q. sql.count-insert Message q msg s.db.messages)
          (ground arith) (ground arith)

    pub create_with_sender_lem : create_with_sender fresh r u content image_url s ≡ (
        if message_fits msg u s.db
        then (ok (load stored msg), record s { db = stored })
        else (err integrity_error, s))
    unfolding create_with_sender
    create_with_sender_lem = ground (arith, message_found)

    -- A member's message that fits, with Redis up, is stored once, published once on the channel of
    -- its room, and answered, with its sender as loaded; nothing else is written, no notification
    -- in particular.
    pub send_message_lem :
        members_of r u s.db ≡ 1
        → message_fits msg u s.db ≡ true
        → s.redis_up ≡ true
        → send_message fresh r u content image_url s ≡ (
          ok (message_to_response (load stored msg)),
          record s {
            db = stored;
            published =
                s.published
                ++ (room_channel (Uuid.str r), chat_message (message_to_ws (load stored msg))) ∷ [];
          },
        )
    unfolding send_message
    send_message_lem one fits up = ground (arith, require_member_lem r u s, create_with_sender_lem)

    -- Who is not a member stores and publishes nothing, and is told so.
    pub send_message_outsider :
        members_of r u s.db ≡ 0
        → send_message fresh r u content image_url s
          ≡ (err (authorization_error (codes "You are not a member of this room")), s)
    unfolding send_message
    send_message_outsider none_of = ground (arith, require_member_lem r u s)

    -- Of a user with one membership of the room at most: a message that raises is not published,
    -- and is stored only if Redis was down.
    pub send_message_err :
        (e : Error)
        → members_of r u s.db ≤ 1
        → (send_message fresh r u content image_url s).0 ≡ err e
        → let s' = (send_message fresh r u content image_url s).1 in
          (s'.published ≡ s.published)
          × ((s' ≡ s)
              ⊎ ((e ≡ redis_error) × (s.redis_up ≡ false) × (s' ≡ record s { db = stored })))
    unfolding send_message
    send_message_err e h raised = ground (arith, require_member_lem r u s, create_with_sender_lem)
