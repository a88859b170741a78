-- ===== src/BaseRepository.antt =====
-- app/repositories/base.py, where a model's own repository does not replace it. At a `delete` the
-- row goes, and the database does to the rows that refer to it what the `ondelete` options of
-- app/models say. The relationships of the models to many rows are `lazy="noload"`, so the session
-- itself adds nothing to a delete.
use fastapi_realtime_chat.Prelude.{
  ℕ, ℤ, Bool, false, ◌&&◌, Option, none, some, List, length, take, drop, ltb, nat_beq, nat_eq,
  text_eq,
}
use fastapi_realtime_chat.Exec.{ok, Exec, lift, gets, ◌>>=◌}
use fastapi_realtime_chat.Sql.{Sql, count_where}
use fastapi_realtime_chat.Redis.{Redis}
use fastapi_realtime_chat.Models.{
  User, ChatRoom, RoomMember, Message, MessageReadReceipt, Notification, RefreshToken,
}
use fastapi_realtime_chat.Backend.{Db, Backend, row_number}
use fastapi_realtime_chat.Rooms.{has_room_id, has_user_id, in_room}
use fastapi_realtime_chat.Messages.{has_message_id}
use fastapi_realtime_chat.Notifications.{is_for}

-- Whether a column that may be NULL names a row.
abbrev pub names : Option ℕ → ℕ → Bool
names none id = false
names (some k) id = nat_beq k id

-- Whether it names a row that is gone.
abbrev pub names_any : (ℕ → Bool) → Option ℕ → Bool
names_any gone none = false
names_any gone (some k) = gone k

-- The actions `SET NULL`.
abbrev pub without_owner : ChatRoom → ChatRoom
without_owner room = record room { owner_id = none }

abbrev pub without_sender : Message → Message
without_sender m = record m { sender_id = none }

abbrev pub without_actor : Notification → Notification
without_actor n = record n { actor_id = none }

abbrev pub without_room : Notification → Notification
without_room n = record n { room_id = none }

abbrev pub without_message : Notification → Notification
without_message n = record n { message_id = none }

module _ {sql : Sql} where
  -- Messages go, by a condition: their receipts go, and notifications forget them.
  unfoldable pub deleted_messages : (Message → Bool) → Db sql → Db sql
  deleted_messages p db =
      let gone = λ (k : ℕ). ltb 0 (count_where sql (λ m. has_message_id k m && p m) db.messages) in
      record db {
        messages = sql.delete Message p db.messages;
        receipts = sql.delete MessageReadReceipt (λ r. gone r.message_id) db.receipts;
        notifications =
            sql.update Notification (λ n. names_any gone n.message_id) without_message
              db.notifications;
      }

  unfoldable pub deleted_room : ℕ → Db sql → Db sql
  deleted_room id db =
      let db' = deleted_messages (λ m. nat_beq m.room_id id) db in
      record db' {
        rooms = sql.delete ChatRoom (has_room_id id) db'.rooms;
        members = sql.delete RoomMember (in_room id) db'.members;
        notifications =
            sql.update Notification (λ n. names n.room_id id) without_room db'.notifications;
      }

  unfoldable pub deleted_user : ℕ → Db sql → Db sql
  deleted_user id db = record db {
    users = sql.delete User (has_user_id id) db.users;
    rooms = sql.update ChatRoom (λ room. names room.owner_id id) without_owner db.rooms;
    members = sql.delete RoomMember (λ m. nat_beq m.user_id id) db.members;
    messages = sql.update Message (λ m. names m.sender_id id) without_sender db.messages;
    receipts = sql.delete MessageReadReceipt (λ r. nat_beq r.user_id id) db.receipts;
    notifications =
        sql.update Notification (λ n. names n.actor_id id) without_actor
          (sql.delete Notification (is_for id) db.notifications);
    tokens = sql.delete RefreshToken (λ t. nat_beq t.user_id id) db.tokens;
  }

-- A row of any of the models.
pub data Obj : Type 0 where
  a_user : User → Obj
  a_room : ChatRoom → Obj
  a_member : RoomMember → Obj
  a_message : Message → Obj
  a_receipt : MessageReadReceipt → Obj
  a_notification : Notification → Obj
  a_token : RefreshToken → Obj

unfoldable pub deleted : {sql : Sql} → Obj → Db sql → Db sql
deleted (a_user u) db = deleted_user u.id db
deleted (a_room room) db = deleted_room room.id db
deleted {sql} (a_member m) db = record db {
  members = sql.delete RoomMember (λ x. nat_beq x.id m.id) db.members;
}
deleted (a_message m) db = deleted_messages (has_message_id m.id) db
deleted {sql} (a_receipt r) db = record db {
  receipts = sql.delete MessageReadReceipt (λ x. nat_beq x.id r.id) db.receipts;
}
deleted {sql} (a_notification n) db = record db {
  notifications = sql.delete Notification (λ x. nat_beq x.id n.id) db.notifications;
}
deleted {sql} (a_token t) db = record db {
  tokens = sql.delete RefreshToken (λ x. nat_beq x.id t.id) db.tokens;
}

unfoldable pub delete : {sql : Sql} {redis : Redis} → Obj → Exec (Backend sql redis) (Unit {0})
delete obj s = (ok tt, record s { db = deleted obj s.db })

module _ {sql : Sql} {redis : Redis} (R : Type 0) (table : Db sql → sql.Table R) where
  unfoldable pub get_all : (limit offset : ℤ) → Exec (Backend sql redis) (List R)
  get_all limit offset = do
    limit ← lift (row_number limit)
    offset ← lift (row_number offset)
    gets (λ s. take limit (drop offset (sql.scan R (table s.db))))

  unfoldable pub count : Exec (Backend sql redis) ℕ
  count s = (ok (length (sql.scan R (table s.db))), s)
