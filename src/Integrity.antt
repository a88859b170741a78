-- ===== src/Integrity.antt =====
-- What the constraints of the tables of app/models promise of all rows at once: keys are unique,
-- and what a foreign key names is there.
pub mod Tables
pub mod Parents
pub mod Writes
pub mod Others
pub mod Safe
pub mod Rows
pub mod MessageRows
pub mod Services
pub mod Endpoints
pub mod Whole
pub mod Sockets
pub mod History
pub mod Cascades
pub mod Deleting
pub mod DeletedUser
pub mod Gone
pub mod Created
use fastapi_realtime_chat.Prelude.{ℕ, ◌≤◌, ◌≡◌, Bool, nat_beq, nat_eq, text_eq}
use fastapi_realtime_chat.Sql.{Sql, count_where}
use fastapi_realtime_chat.Models.{
  User, ChatRoom, RoomMember, Message, MessageReadReceipt, Notification, RefreshToken,
}
use fastapi_realtime_chat.Backend.{Db}
use fastapi_realtime_chat.Rooms.{membership, in_room, has_room_id, has_user_id}
use fastapi_realtime_chat.Messages.{has_message_id}
use fastapi_realtime_chat.Notifications.{is_for}
use fastapi_realtime_chat.BaseRepository.{names}
use fastapi_realtime_chat.Users.{has_username, has_email, has_hash}

-- No two rows have the same key.
pub record Unique (sql : Sql) {K R : Type 0} (key : K → R → Bool) (t : sql.Table R) : Type 0 where
  pub at : (k : K) → count_where sql (key k) t ≤ 1

-- Where no row has a key, no row of the other table refers to it.
pub record References (sql : Sql) {P C : Type 0} (key : ℕ → P → Bool) (refers : ℕ → C → Bool)
    (parents : sql.Table P) (children : sql.Table C) : Type 0 where
  pub at : (k : ℕ) → count_where sql (key k) parents ≡ 0 → count_where sql (refers k) children ≡ 0

module _ (sql : Sql) where
  pub record UsersIntact (users : sql.Table User) : Type 0 where
    pub id : Unique sql has_user_id users
    pub username : Unique sql has_username users
    pub email : Unique sql has_email users

  pub record RoomsIntact (users : sql.Table User) (rooms : sql.Table ChatRoom) : Type 0 where
    pub id : Unique sql has_room_id rooms
    pub owner : References sql has_user_id (λ k room. names room.owner_id k) users rooms

  pub record MembersIntact (users : sql.Table User) (rooms : sql.Table ChatRoom)
      (members : sql.Table RoomMember) : Type 0 where
    pub id : Unique sql (λ k (m : RoomMember). nat_beq m.id k) members
    pub pair : (r : ℕ) → Unique sql (membership r) members
    pub room : References sql has_room_id in_room rooms members
    pub user : References sql has_user_id (λ k m. nat_beq m.user_id k) users members

  pub record MessagesIntact (users : sql.Table User) (rooms : sql.Table ChatRoom)
      (messages : sql.Table Message) : Type 0 where
    pub id : Unique sql has_message_id messages
    pub room : References sql has_room_id (λ k m. nat_beq m.room_id k) rooms messages
    pub sender : References sql has_user_id (λ k m. names m.sender_id k) users messages

  pub record ReceiptsIntact (users : sql.Table User) (messages : sql.Table Message)
      (receipts : sql.Table MessageReadReceipt) : Type 0 where
    pub id : Unique sql (λ k (r : MessageReadReceipt). nat_beq r.id k) receipts
    pub message : References sql has_message_id (λ k r. nat_beq r.message_id k) messages receipts
    pub user : References sql has_user_id (λ k r. nat_beq r.user_id k) users receipts

  pub record NotificationsIntact (users : sql.Table User) (rooms : sql.Table ChatRoom)
      (messages : sql.Table Message) (notifications : sql.Table Notification) : Type 0 where
    pub id : Unique sql (λ k (n : Notification). nat_beq n.id k) notifications
    pub recipient : References sql has_user_id is_for users notifications
    pub actor : References sql has_user_id (λ k n. names n.actor_id k) users notifications
    pub room : References sql has_room_id (λ k n. names n.room_id k) rooms notifications
    pub message : References sql has_message_id (λ k n. names n.message_id k) messages notifications

  pub record TokensIntact (users : sql.Table User) (tokens : sql.Table RefreshToken) : Type 0 where
    pub id : Unique sql (λ k (t : RefreshToken). nat_beq t.id k) tokens
    pub hash : Unique sql has_hash tokens
    pub user : References sql has_user_id (λ k t. nat_beq t.user_id k) users tokens

  pub record IsIntact (db : Db sql) : Type 0 where
    pub users : UsersIntact db.users
    pub rooms : RoomsIntact db.users db.rooms
    pub members : MembersIntact db.users db.rooms db.members
    pub messages : MessagesIntact db.users db.rooms db.messages
    pub receipts : ReceiptsIntact db.users db.messages db.receipts
    pub notifications : NotificationsIntact db.users db.rooms db.messages db.notifications
    pub tokens : TokensIntact db.users db.tokens
