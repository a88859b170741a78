-- ===== src/Integrity/Gone.antt =====
-- What `delete` of app/repositories/base.py leaves: intact tables, and no trace of the row.
use fastapi_realtime_chat.Prelude.{
  ℕ, ◌≡◌, refl, false, arith, nat_beq, nat_beq_iff, nat_eq, text_eq,
}
use fastapi_realtime_chat.Sql.{Sql, count_where}
use fastapi_realtime_chat.Redis.{Redis}
use fastapi_realtime_chat.Models.{
  RoomMember, Message, MessageReadReceipt, Notification, RefreshToken,
}
use fastapi_realtime_chat.Backend.{Db, Backend}
use fastapi_realtime_chat.Rooms.{has_room_id, has_user_id, in_room}
use fastapi_realtime_chat.Messages.{has_message_id}
use fastapi_realtime_chat.Notifications.{is_for}
use fastapi_realtime_chat.BaseRepository
use fastapi_realtime_chat.BaseRepository.{
  names, without_owner, without_sender, Obj, a_user, a_room, a_member, a_message, a_receipt,
  a_notification, a_token, deleted, deleted_messages, deleted_room, deleted_user,
}
use fastapi_realtime_chat.Integrity.{IsIntact}
use fastapi_realtime_chat.Integrity.Writes.{delete_members-IsIntact, delete_receipts-IsIntact}
use fastapi_realtime_chat.Integrity.Others.{delete_notifications-IsIntact, delete_tokens-IsIntact}
use fastapi_realtime_chat.Integrity.Tables.{count-updated}
use fastapi_realtime_chat.Integrity.Cascades.{count-gone, count-others}
use fastapi_realtime_chat.Integrity.Deleting.{deleted_messages-IsIntact, deleted_room-IsIntact}
use fastapi_realtime_chat.Integrity.DeletedUser.{deleted_user-IsIntact}
use fastapi_realtime_chat.Integrity.Safe.{Sound}

module _ {sql : Sql} where
  pub record UserGone (id : ℕ) (db : Db sql) : Type 0 where
    pub user : count_where sql (has_user_id id) db.users ≡ 0
    pub owned : count_where sql (λ room. names room.owner_id id) db.rooms ≡ 0
    pub joined : count_where sql (λ m. nat_beq m.user_id id) db.members ≡ 0
    pub sent : count_where sql (λ m. names m.sender_id id) db.messages ≡ 0
    pub read : count_where sql (λ r. nat_beq r.user_id id) db.receipts ≡ 0
    pub told : count_where sql (is_for id) db.notifications ≡ 0
    pub acted : count_where sql (λ n. names n.actor_id id) db.notifications ≡ 0
    pub issued : count_where sql (λ t. nat_beq t.user_id id) db.tokens ≡ 0

  pub record RoomGone (id : ℕ) (db : Db sql) : Type 0 where
    pub room : count_where sql (has_room_id id) db.rooms ≡ 0
    pub joined : count_where sql (in_room id) db.members ≡ 0
    pub sent : count_where sql (λ m. nat_beq m.room_id id) db.messages ≡ 0
    pub told : count_where sql (λ n. names n.room_id id) db.notifications ≡ 0

  pub record MessageGone (id : ℕ) (db : Db sql) : Type 0 where
    pub message : count_where sql (has_message_id id) db.messages ≡ 0
    pub read : count_where sql (λ r. nat_beq r.message_id id) db.receipts ≡ 0
    pub told : count_where sql (λ n. names n.message_id id) db.notifications ≡ 0

  -- No table has the row, and none has a row that names it.
  abbrev pub Gone : Obj → Db sql → Type 0
  Gone (a_user u) db = UserGone u.id db
  Gone (a_room room) db = RoomGone room.id db
  Gone (a_member m) db = count_where sql (λ (x : RoomMember). nat_beq x.id m.id) db.members ≡ 0
  Gone (a_message m) db = MessageGone m.id db
  Gone (a_receipt r) db =
      count_where sql (λ (x : MessageReadReceipt). nat_beq x.id r.id) db.receipts ≡ 0
  Gone (a_notification n) db =
      count_where sql (λ (x : Notification). nat_beq x.id n.id) db.notifications ≡ 0
  Gone (a_token t) db = count_where sql (λ (x : RefreshToken). nat_beq x.id t.id) db.tokens ≡ 0

  -- What is left: rooms and messages of a deleted user, messages of other rooms, other messages.
  abbrev pub Kept : Obj → Db sql → Db sql → Type 0
  Kept (a_user u) db later =
      (k : ℕ)
      → (count_where sql (has_room_id k) later.rooms ≡ count_where sql (has_room_id k) db.rooms)
        × (count_where sql (has_message_id k) later.messages
            ≡ count_where sql (has_message_id k) db.messages)
  Kept (a_room room) db later =
      (k : ℕ)
      → nat_beq k room.id ≡ false
      → count_where sql (λ m. nat_beq m.room_id k) later.messages
        ≡ count_where sql (λ m. nat_beq m.room_id k) db.messages
  Kept (a_message m) db later =
      (k : ℕ)
      → nat_beq k m.id ≡ false
      → count_where sql (has_message_id k) later.messages
        ≡ count_where sql (has_message_id k) db.messages
  Kept obj db later = Unit

  deleted-IsIntact : (obj : Obj) (db : Db sql) → IsIntact sql db → IsIntact sql (deleted obj db)
  unfolding deleted
  deleted-IsIntact (a_user u) db h = deleted_user-IsIntact db h u.id
  deleted-IsIntact (a_room room) db h = deleted_room-IsIntact db h room.id
  deleted-IsIntact (a_member m) db h = delete_members-IsIntact db h (λ x. nat_beq x.id m.id)
  deleted-IsIntact (a_message m) db h = deleted_messages-IsIntact db h (has_message_id m.id)
  deleted-IsIntact (a_receipt r) db h = delete_receipts-IsIntact db h (λ x. nat_beq x.id r.id)
  deleted-IsIntact (a_notification n) db h =
      delete_notifications-IsIntact db h (λ x. nat_beq x.id n.id)
  deleted-IsIntact (a_token t) db h = delete_tokens-IsIntact db h (λ x. nat_beq x.id t.id)

  -- A key that is gone from intact tables is named nowhere.
  unnamed_user :
      (db : Db sql)
      → IsIntact sql db
      → (id : ℕ) → count_where sql (has_user_id id) db.users ≡ 0
      → UserGone id db
  unnamed_user db h id none = record {
    user = none;
    owned = h.rooms.owner.at id none;
    joined = h.members.user.at id none;
    sent = h.messages.sender.at id none;
    read = h.receipts.user.at id none;
    told = h.notifications.recipient.at id none;
    acted = h.notifications.actor.at id none;
    issued = h.tokens.user.at id none;
  }

  unnamed_room :
      (db : Db sql)
      → IsIntact sql db
      → (id : ℕ) → count_where sql (has_room_id id) db.rooms ≡ 0
      → RoomGone id db
  unnamed_room db h id none = record {
    room = none;
    joined = h.members.room.at id none;
    sent = h.messages.room.at id none;
    told = h.notifications.room.at id none;
  }

  unnamed_message :
      (db : Db sql)
      → IsIntact sql db
      → (id : ℕ) → count_where sql (has_message_id id) db.messages ≡ 0
      → MessageGone id db
  unnamed_message db h id none = record {
    message = none;
    read = h.receipts.message.at id none;
    told = h.notifications.message.at id none;
  }

  deleted-Gone : (obj : Obj) (db : Db sql) → IsIntact sql db → Gone obj (deleted obj db)
  unfolding deleted deleted_user deleted_room deleted_messages
  deleted-Gone (a_user u) db h =
      unnamed_user _ (deleted-IsIntact (a_user u) db h) u.id (count-gone sql _ db.users)
  deleted-Gone (a_room room) db h =
      unnamed_room _ (deleted-IsIntact (a_room room) db h) room.id (count-gone sql _ db.rooms)
  deleted-Gone (a_member m) db h = count-gone sql _ db.members
  deleted-Gone (a_message m) db h =
      unnamed_message _ (deleted-IsIntact (a_message m) db h) m.id (count-gone sql _ db.messages)
  deleted-Gone (a_receipt r) db h = count-gone sql _ db.receipts
  deleted-Gone (a_notification n) db h = count-gone sql _ db.notifications
  deleted-Gone (a_token t) db h = count-gone sql _ db.tokens

  deleted-Kept : (obj : Obj) (db : Db sql) → Kept obj db (deleted obj db)
  unfolding deleted deleted_user deleted_room deleted_messages
  deleted-Kept (a_user u) db = λ k. (
    count-updated sql (has_room_id k) _ without_owner (λ room. refl) db.rooms,
    count-updated sql (has_message_id k) _ without_sender (λ m. refl) db.messages,
  )
  deleted-Kept (a_room room) db =
      count-others sql (λ k (m : Message). nat_beq m.room_id k)
        (λ j k m p q. ground (arith, nat_beq_iff m.room_id j, nat_beq_iff m.room_id k)) room.id
        db.messages
  deleted-Kept (a_member m) db = tt
  deleted-Kept (a_message m) db =
      count-others sql has_message_id
        (λ j k x p q. ground (arith, nat_beq_iff x.id j, nat_beq_iff x.id k)) m.id db.messages
  deleted-Kept (a_receipt r) db = tt
  deleted-Kept (a_notification n) db = tt
  deleted-Kept (a_token t) db = tt

-- A deletion through a repository: of intact tables it leaves intact ones, without the row and
-- without a row that names it. A user's rooms and messages stay, and so do the messages of other
-- rooms and other messages; what is committed stays as it is until the next commit.
pub delete_lem :
    {sql : Sql} {redis : Redis} (obj : Obj) (s : Backend sql redis)
    → Sound s
    → let later = (BaseRepository.delete obj s).1 in
      Sound later × Gone obj later.db × Kept obj s.db later.db × (later.committed ≡ s.committed)
unfolding BaseRepository.delete
delete_lem obj s h = (
  record { db = deleted-IsIntact obj s.db h.db; committed = h.committed },
  deleted-Gone obj s.db h.db,
  deleted-Kept obj s.db,
  refl,
)
