-- ===== src/Integrity/Deleting.antt =====
-- A deleted message or room takes with it what referred to it, or is forgotten by it: the tables stay intact.
use fastapi_realtime_chat.Prelude.{
  ℕ, ◌≡◌, Bool, true, arith, refl, nat_beq, nat_beq_iff, nat_eq, text_eq, ltb, ◌&&◌, Option, none,
  some,
}
use fastapi_realtime_chat.Sql.{Sql, count_where}
use fastapi_realtime_chat.Models.{ChatRoom, Message, Notification}
use fastapi_realtime_chat.Backend.{Db}
use fastapi_realtime_chat.Rooms.{has_room_id, in_room}
use fastapi_realtime_chat.Messages.{has_message_id}
use fastapi_realtime_chat.BaseRepository.{
  names, names_any, without_room, without_message, deleted_messages, deleted_room,
}
use fastapi_realtime_chat.Integrity.{IsIntact}
use fastapi_realtime_chat.Integrity.Tables.{
  Unique-update, Unique-delete, References-update, References-delete,
}
use fastapi_realtime_chat.Integrity.Cascades.{
  Drops-delete, Drops-delete_key, References-cascade, References-null,
}

names_any-names :
    (gone : ℕ → Bool) (o : Option ℕ) (k : ℕ)
    → gone k ≡ true
    → names o k ≡ true
    → names_any gone o ≡ true
names_any-names gone none k g e = absurd (ground arith)
names_any-names gone (some j) k g e = ground (arith, nat_beq_iff j k)

pub names-swap :
    (o : Option ℕ) (id k : ℕ) → nat_beq k id ≡ true → names o k ≡ true → names o id ≡ true
names-swap none id k g e = absurd (ground arith)
names-swap (some j) id k g e = ground (arith, nat_beq_iff j k, nat_beq_iff k id)

same_room :
    (j k : ℕ) (room : ChatRoom)
    → has_room_id j room ≡ true
    → has_room_id k room ≡ true
    → nat_beq k j ≡ true
same_room j k room p q = ground (arith, nat_beq_iff room.id j, nat_beq_iff room.id k)

module _ {sql : Sql} (db : Db sql) (h : IsIntact sql db) where
  pub deleted_messages-IsIntact : (p : Message → Bool) → IsIntact sql (deleted_messages p db)
  unfolding deleted_messages
  deleted_messages-IsIntact p =
      let gone = λ (k : ℕ). ltb 0 (count_where sql (λ m. has_message_id k m && p m) db.messages) in
      let drops = Drops-delete {sql = sql} has_message_id p db.messages in
      record {
        users = h.users;
        rooms = h.rooms;
        members = h.members;
        messages = record {
          id = Unique-delete db.messages p h.messages.id;
          room = References-delete h.messages.room p;
          sender = References-delete h.messages.sender p;
        };
        receipts = record {
          id = Unique-delete db.receipts (λ r. gone r.message_id) h.receipts.id;
          message =
              References-cascade (λ r. gone r.message_id) drops
                (λ k r g e. names_any-names gone (some r.message_id) k g e) h.receipts.message;
          user = References-delete h.receipts.user (λ r. gone r.message_id);
        };
        notifications =
            let forgets = λ (n : Notification). names_any gone n.message_id in
            record {
              id =
                  Unique-update db.notifications forgets without_message (λ k n. refl)
                    h.notifications.id;
              recipient =
                  References-update h.notifications.recipient forgets without_message (λ k n. refl);
              actor = References-update h.notifications.actor forgets without_message (λ k n. refl);
              room = References-update h.notifications.room forgets without_message (λ k n. refl);
              message =
                  References-null forgets without_message drops
                    (λ k n. names_any-names gone n.message_id k) (λ k n. refl)
                    h.notifications.message;
            };
        tokens = h.tokens;
      }

  pub deleted_room-IsIntact : (id : ℕ) → IsIntact sql (deleted_room id db)
  unfolding deleted_room deleted_messages
  deleted_room-IsIntact id =
      let h' = deleted_messages-IsIntact (λ m. nat_beq m.room_id id) in
      let drops = Drops-delete_key sql has_room_id same_room id db.rooms in
      record {
        users = h.users;
        rooms = record {
          id = Unique-delete db.rooms (has_room_id id) h.rooms.id;
          owner = References-delete h.rooms.owner (has_room_id id);
        };
        members = record {
          id = Unique-delete db.members (in_room id) h.members.id;
          pair = λ r. Unique-delete db.members (in_room id) (h.members.pair r);
          room =
              References-cascade (in_room id) drops (λ k m. names-swap (some m.room_id) id k)
                h.members.room;
          user = References-delete h.members.user (in_room id);
        };
        messages = record {
          id = h'.messages.id;
          room =
              References-cascade (λ m. nat_beq m.room_id id) drops
                (λ k m. names-swap (some m.room_id) id k) h.messages.room;
          sender = h'.messages.sender;
        };
        receipts = h'.receipts;
        notifications =
            let forgets = λ (n : Notification). names n.room_id id in
            let n' = h'.notifications in
            record {
              id = Unique-update _ forgets without_room (λ k n. refl) n'.id;
              recipient = References-update n'.recipient forgets without_room (λ k n. refl);
              actor = References-update n'.actor forgets without_room (λ k n. refl);
              room =
                  References-null forgets without_room drops (λ k n. names-swap n.room_id id k)
                    (λ k n. refl) n'.room;
              message = References-update n'.message forgets without_room (λ k n. refl);
            };
        tokens = h.tokens;
      }
