-- ===== src/Integrity/DeletedUser.antt =====
-- The same of a deleted user, whom every table may name.
use fastapi_realtime_chat.Prelude.{
  ℕ, ◌≡◌, true, some, refl, arith, nat_beq, nat_beq_iff, nat_eq, text_eq,
}
use fastapi_realtime_chat.Sql.{Sql}
use fastapi_realtime_chat.Models.{
  User, ChatRoom, RoomMember, Message, MessageReadReceipt, Notification, RefreshToken,
}
use fastapi_realtime_chat.Backend.{Db}
use fastapi_realtime_chat.Rooms.{has_room_id, has_user_id}
use fastapi_realtime_chat.Messages.{has_message_id}
use fastapi_realtime_chat.Notifications.{is_for}
use fastapi_realtime_chat.BaseRepository.{
  names, without_owner, without_sender, without_actor, deleted_user,
}
use fastapi_realtime_chat.Integrity.{IsIntact}
use fastapi_realtime_chat.Integrity.Tables.{
  Unique-update, Unique-delete, Covers-update, References-covers, References-update,
  References-delete,
}
use fastapi_realtime_chat.Integrity.Cascades.{Drops-delete_key, References-cascade, References-null}
use fastapi_realtime_chat.Integrity.Deleting.{names-swap}

same_user :
    (j k : ℕ) (u : User) → has_user_id j u ≡ true → has_user_id k u ≡ true → nat_beq k j ≡ true
same_user j k u p q = ground (arith, nat_beq_iff u.id j, nat_beq_iff u.id k)

module _ {sql : Sql} (db : Db sql) (h : IsIntact sql db) where
  pub deleted_user-IsIntact : (id : ℕ) → IsIntact sql (deleted_user id db)
  unfolding deleted_user
  deleted_user-IsIntact id =
      let drops = Drops-delete_key sql has_user_id same_user id db.users in
      let owned = λ (room : ChatRoom). names room.owner_id id in
      let sent = λ (m : Message). names m.sender_id id in
      let rooms' = Covers-update has_room_id db.rooms owned without_owner (λ k room. refl) in
      let messages' = Covers-update has_message_id db.messages sent without_sender (λ k m. refl) in
      record {
        users = record {
          id = Unique-delete db.users (has_user_id id) h.users.id;
          username = Unique-delete db.users (has_user_id id) h.users.username;
          email = Unique-delete db.users (has_user_id id) h.users.email;
        };
        rooms = record {
          id = Unique-update db.rooms owned without_owner (λ k room. refl) h.rooms.id;
          owner =
              References-null owned without_owner drops (λ k room. names-swap room.owner_id id k)
                (λ k room. refl) h.rooms.owner;
        };
        members =
            let gone = λ (m : RoomMember). nat_beq m.user_id id in
            record {
              id = Unique-delete db.members gone h.members.id;
              pair = λ r. Unique-delete db.members gone (h.members.pair r);
              room = References-covers (References-delete h.members.room gone) rooms';
              user =
                  References-cascade gone drops (λ k m. names-swap (some m.user_id) id k)
                    h.members.user;
            };
        messages = record {
          id = Unique-update db.messages sent without_sender (λ k m. refl) h.messages.id;
          room =
              References-covers
                (References-update h.messages.room sent without_sender (λ k m. refl)) rooms';
          sender =
              References-null sent without_sender drops (λ k m. names-swap m.sender_id id k)
                (λ k m. refl) h.messages.sender;
        };
        receipts =
            let gone = λ (r : MessageReadReceipt). nat_beq r.user_id id in
            record {
              id = Unique-delete db.receipts gone h.receipts.id;
              message = References-covers (References-delete h.receipts.message gone) messages';
              user =
                  References-cascade gone drops (λ k r. names-swap (some r.user_id) id k)
                    h.receipts.user;
            };
        notifications =
            let gone = is_for id in
            let acted = λ (n : Notification). names n.actor_id id in
            record {
              id =
                  Unique-update _ acted without_actor (λ k n. refl)
                    (Unique-delete db.notifications gone h.notifications.id);
              recipient =
                  References-update
                    (References-cascade gone drops (λ k n. names-swap (some n.recipient_id) id k)
                      h.notifications.recipient)
                    acted without_actor (λ k n. refl);
              actor =
                  References-null acted without_actor drops (λ k n. names-swap n.actor_id id k)
                    (λ k n. refl) (References-delete h.notifications.actor gone);
              room =
                  References-covers
                    (References-update (References-delete h.notifications.room gone) acted
                      without_actor (λ k n. refl))
                    rooms';
              message =
                  References-covers
                    (References-update (References-delete h.notifications.message gone) acted
                      without_actor (λ k n. refl))
                    messages';
            };
        tokens =
            let gone = λ (t : RefreshToken). nat_beq t.user_id id in
            record {
              id = Unique-delete db.tokens gone h.tokens.id;
              hash = Unique-delete db.tokens gone h.tokens.hash;
              user =
                  References-cascade gone drops (λ k t. names-swap (some t.user_id) id k)
                    h.tokens.user;
            };
      }
