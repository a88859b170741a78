-- ===== src/Integrity/Writes.antt =====
-- A row that its test lets in, an update of columns that are no keys, and a deletion of rows that
-- nothing refers to leave the tables intact.
use fastapi_realtime_chat.Prelude.{
  ℕ, ◌≡◌, Bool, true, some, arith, nat_beq_iff, nat_eq, text_eq, text_beq_iff,
}
use fastapi_realtime_chat.Sql.{Sql}
use fastapi_realtime_chat.Models.{User, ChatRoom, RoomMember, Message, MessageReadReceipt}
use fastapi_realtime_chat.Backend.{Db}
use fastapi_realtime_chat.Rooms.{has_room_id, has_user_id, member_fits, room_fits}
use fastapi_realtime_chat.Messages.{has_message_id, message_fits, receipt_fits, with_receipt}
use fastapi_realtime_chat.Users.{user_fits}
use fastapi_realtime_chat.Integrity.{IsIntact}
use fastapi_realtime_chat.Integrity.Tables.{
  Unique-insert, Unique-update, Unique-delete, Covers-insert, Covers-update, References-insert,
  References-delete,
}
use fastapi_realtime_chat.Integrity.Parents.{
  with_users-IsIntact, with_rooms-IsIntact, with_messages-IsIntact,
}

module _ {sql : Sql} (db : Db sql) (h : IsIntact sql db) where
  pub insert_user-IsIntact :
      (u : User)
      → user_fits u db ≡ true
      → IsIntact sql (record db { users = sql.insert User u db.users })
  unfolding user_fits
  insert_user-IsIntact u fits =
      with_users-IsIntact db h (Covers-insert has_user_id db.users u) (record {
        id = Unique-insert db.users u (λ k e. ground (arith, nat_beq_iff u.id k)) h.users.id;
        username =
            Unique-insert db.users u (λ k e. ground (arith, text_beq_iff u.username k))
              h.users.username;
        email =
            Unique-insert db.users u (λ k e. ground (arith, text_beq_iff u.email k)) h.users.email;
      })

  pub update_users-IsIntact :
      (p : User → Bool) (f : User → User)
      → ((u : User) → (f u).id ≡ u.id)
      → ((u : User) → (f u).username ≡ u.username)
      → ((u : User) → (f u).email ≡ u.email)
      → IsIntact sql (record db { users = sql.update User p f db.users })
  update_users-IsIntact p f id username email =
      with_users-IsIntact db h
        (Covers-update has_user_id db.users p f (λ k u. ground (arith, id u)))
        (record {
          id = Unique-update db.users p f (λ k u. ground (arith, id u)) h.users.id;
          username =
              Unique-update db.users p f (λ k u. ground (arith, username u)) h.users.username;
          email = Unique-update db.users p f (λ k u. ground (arith, email u)) h.users.email;
        })

  pub insert_room-IsIntact :
      (room : ChatRoom) (owner : ℕ)
      → room.owner_id ≡ some owner
      → room_fits room owner db ≡ true
      → IsIntact sql (record db { rooms = sql.insert ChatRoom room db.rooms })
  unfolding room_fits
  insert_room-IsIntact room owner owned fits =
      with_rooms-IsIntact db h (Covers-insert has_room_id db.rooms room) (record {
        id = Unique-insert db.rooms room (λ k e. ground (arith, nat_beq_iff room.id k)) h.rooms.id;
        owner = References-insert h.rooms.owner room (λ k e. ground (arith, nat_beq_iff owner k));
      })

  pub insert_member-IsIntact :
      (m : RoomMember)
      → member_fits m db ≡ true
      → IsIntact sql (record db { members = sql.insert RoomMember m db.members })
  unfolding member_fits
  insert_member-IsIntact m fits = record {
    users = h.users;
    rooms = h.rooms;
    members = record {
      id = Unique-insert db.members m (λ k e. ground (arith, nat_beq_iff m.id k)) h.members.id;
      pair = λ r.
          Unique-insert db.members m
            (λ k e. ground (arith, nat_beq_iff m.room_id r, nat_beq_iff m.user_id k))
            (h.members.pair r);
      room = References-insert h.members.room m (λ k e. ground (arith, nat_beq_iff m.room_id k));
      user = References-insert h.members.user m (λ k e. ground (arith, nat_beq_iff m.user_id k));
    };
    messages = h.messages;
    receipts = h.receipts;
    notifications = h.notifications;
    tokens = h.tokens;
  }

  pub delete_members-IsIntact :
      (p : RoomMember → Bool)
      → IsIntact sql (record db { members = sql.delete RoomMember p db.members })
  delete_members-IsIntact p = record {
    users = h.users;
    rooms = h.rooms;
    members = record {
      id = Unique-delete db.members p h.members.id;
      pair = λ r. Unique-delete db.members p (h.members.pair r);
      room = References-delete h.members.room p;
      user = References-delete h.members.user p;
    };
    messages = h.messages;
    receipts = h.receipts;
    notifications = h.notifications;
    tokens = h.tokens;
  }

  pub insert_message-IsIntact :
      (m : Message) (sender : ℕ)
      → m.sender_id ≡ some sender
      → message_fits m sender db ≡ true
      → IsIntact sql (record db { messages = sql.insert Message m db.messages })
  unfolding message_fits
  insert_message-IsIntact m sender sent fits =
      with_messages-IsIntact db h (Covers-insert has_message_id db.messages m) (record {
        id = Unique-insert db.messages m (λ k e. ground (arith, nat_beq_iff m.id k)) h.messages.id;
        room = References-insert h.messages.room m (λ k e. ground (arith, nat_beq_iff m.room_id k));
        sender =
            References-insert h.messages.sender m (λ k e. ground (arith, nat_beq_iff sender k));
      })

  pub insert_receipt-IsIntact :
      (r : MessageReadReceipt) → receipt_fits r db ≡ true → IsIntact sql (with_receipt r db)
  unfolding receipt_fits
  insert_receipt-IsIntact r fits = record {
    users = h.users;
    rooms = h.rooms;
    members = h.members;
    messages = h.messages;
    receipts = record {
      id = Unique-insert db.receipts r (λ k e. ground (arith, nat_beq_iff r.id k)) h.receipts.id;
      message =
          References-insert h.receipts.message r
            (λ k e. ground (arith, nat_beq_iff r.message_id k));
      user = References-insert h.receipts.user r (λ k e. ground (arith, nat_beq_iff r.user_id k));
    };
    notifications = h.notifications;
    tokens = h.tokens;
  }

  pub delete_receipts-IsIntact :
      (p : MessageReadReceipt → Bool)
      → IsIntact sql (record db { receipts = sql.delete MessageReadReceipt p db.receipts })
  delete_receipts-IsIntact p = record {
    users = h.users;
    rooms = h.rooms;
    members = h.members;
    messages = h.messages;
    receipts = record {
      id = Unique-delete db.receipts p h.receipts.id;
      message = References-delete h.receipts.message p;
      user = References-delete h.receipts.user p;
    };
    notifications = h.notifications;
    tokens = h.tokens;
  }
