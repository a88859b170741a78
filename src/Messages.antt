-- ===== src/Messages.antt =====
-- The table of messages and the read receipts: app/repositories/message_repo.py.
pub mod Receipts
pub mod Unread
pub mod Ordered
use mathlib.Core.List.{head?}
use fastapi_realtime_chat.Prelude.{
  ℕ, suc, ◌-◌, ◌*◌, Bool, false, not, ◌&&◌, Option, none, some, List, [], ◌∷◌, map, ltb, nat_beq,
  if◌then◌else◌, Text, nat_eq, text_eq, take, drop, filter, any,
}
use fastapi_realtime_chat.Exec.{integrity_error, ok, err, Exec, pure, lift, ◌>>=◌, ◌>>◌}
use fastapi_realtime_chat.Uuid
use fastapi_realtime_chat.Sql.{Sql, select_where, count_where}
use fastapi_realtime_chat.Redis.{Redis}
use fastapi_realtime_chat.Models.{User, Message, MessageReadReceipt, Fresh}
use fastapi_realtime_chat.Backend.{Db, Backend, scalar_one}
use fastapi_realtime_chat.Rooms.{has_room_id, has_user_id}

-- A message with its sender and its read receipts loaded.
pub record LoadedMessage : Type 0 where
  pub row : Message
  pub sender : Option User
  pub read_receipts : List MessageReadReceipt

-- The conditions of the queries.
abbrev pub has_message_id : ℕ → Message → Bool
has_message_id id m = nat_beq m.id id

abbrev pub visible_in : ℕ → Message → Bool
visible_in room_id m = nat_beq m.room_id room_id && not m.is_deleted

abbrev pub receipt_of : (message_id user_id : ℕ) → MessageReadReceipt → Bool
receipt_of message_id user_id r = nat_beq r.message_id message_id && nat_beq r.user_id user_id

-- `Message.sender_id != user_id` does not hold of a sender that is NULL.
abbrev pub sender_is_not : ℕ → Option ℕ → Bool
sender_is_not user_id none = false
sender_is_not user_id (some id) = not (nat_beq id user_id)

abbrev pub is_in : ℕ → List ℕ → Bool
is_in id ids = any (λ x. nat_beq x id) ids

-- `Message(room_id=…, sender_id=…, content=…, image_url=…)`
abbrev pub new_message :
    Fresh → (room_id sender_id : ℕ) → (content image_url : Option Text) → Message
new_message fresh room_id sender_id content image_url = record {
  id = fresh.id;
  room_id = room_id;
  sender_id = some sender_id;
  content = content;
  image_url = image_url;
  is_deleted = false;
  created_at = fresh.now;
}

abbrev pub new_receipt : Fresh → (message_id user_id : ℕ) → MessageReadReceipt
new_receipt fresh message_id user_id = record {
  id = fresh.id;
  message_id = message_id;
  user_id = user_id;
  created_at = fresh.now;
}

-- The rows of one INSERT, each with fresh defaults.
abbrev pub new_receipts : (ℕ → Fresh) → ℕ → List ℕ → ℕ → List MessageReadReceipt
new_receipts fresh user_id [] i = []
new_receipts fresh user_id (mid ∷ mids) i =
    new_receipt (fresh i) mid user_id ∷ new_receipts fresh user_id mids (suc i)

module _ {sql : Sql} where
  abbrev pub load_sender : Db sql → Option ℕ → Option User
  load_sender db none = none
  load_sender db (some id) = head? (select_where sql (has_user_id id) db.users)

  -- `selectinload(Message.sender), selectinload(Message.read_receipts)`
  abbrev pub load : Db sql → Message → LoadedMessage
  load db row = record {
    row = row;
    sender = load_sender db row.sender_id;
    read_receipts = select_where sql (λ r. nat_beq r.message_id row.id) db.receipts;
  }

  -- The constraints of the tables `messages` and `message_read_receipts`.
  unfoldable pub message_fits : Message → ℕ → Db sql → Bool
  message_fits m sender_id db =
      nat_beq (count_where sql (has_message_id m.id) db.messages) 0
      && ltb 0 (count_where sql (has_room_id m.room_id) db.rooms)
      && ltb 0 (count_where sql (has_user_id sender_id) db.users)

  unfoldable pub receipt_fits : MessageReadReceipt → Db sql → Bool
  receipt_fits r db =
      nat_beq (count_where sql (λ o. nat_beq o.id r.id) db.receipts) 0
      && ltb 0 (count_where sql (has_message_id r.message_id) db.messages)
      && ltb 0 (count_where sql (has_user_id r.user_id) db.users)

  abbrev pub with_receipt : MessageReadReceipt → Db sql → Db sql
  with_receipt r db = record db { receipts = sql.insert MessageReadReceipt r db.receipts }

  -- Many rows in one INSERT: all of them, or none.
  unfoldable pub insert_receipts : List MessageReadReceipt → Db sql → Option (Db sql)
  insert_receipts [] db = some db
  insert_receipts (r ∷ rs) db =
      let rest = insert_receipts rs (with_receipt r db) in if receipt_fits r db then rest else none

  -- `Message.id.not_in(subq)`, with the subquery of the user's receipts.
  abbrev pub unread_by : Db sql → ℕ → Message → Bool
  unread_by db user_id m = nat_beq (count_where sql (receipt_of m.id user_id) db.receipts) 0

module _ {sql : Sql} {redis : Redis} where
  unfoldable pub get_room_messages :
      (room_id page page_size : ℕ) → Exec (Backend sql redis) (List LoadedMessage × ℕ)
  get_room_messages room_id page page_size s =
      let rows = select_where sql (visible_in room_id) s.db.messages in
      let ordered = sql.order_desc Message (λ m. m.created_at) rows in
      let messages = take page_size (drop ((page - 1) * page_size) ordered) in
      (ok (map (load s.db) messages, count_where sql (visible_in room_id) s.db.messages), s)

  unfoldable pub create_with_sender :
      Fresh
      → (room_id sender_id : ℕ) → (content image_url : Option Text)
      → Exec (Backend sql redis) LoadedMessage
  create_with_sender fresh room_id sender_id content image_url s =
      let msg = new_message fresh room_id sender_id content image_url in
      if message_fits msg sender_id s.db
      then (let db' : Db sql = record s.db { messages = sql.insert Message msg s.db.messages } in
          let s' : Backend sql redis = record s { db = db' } in
          (do
            row ← lift (scalar_one (select_where sql (has_message_id msg.id) db'.messages))
            pure (load db' row))
            s')
      else (err integrity_error, s)

  unfoldable pub mark_read :
      (ℕ → Fresh) → (message_ids : List ℕ) → (user_id : ℕ) → Exec (Backend sql redis) (Unit {0})
  mark_read fresh message_ids user_id s =
      let existing =
        select_where sql (λ r. is_in r.message_id message_ids && nat_beq r.user_id user_id)
          s.db.receipts in
      let already_read = map (λ r. r.message_id) existing in
      let new_ids = filter (λ mid. not (is_in mid already_read)) message_ids in
      elim (insert_receipts (new_receipts fresh user_id new_ids 0) s.db) [
        | none ↦ (err integrity_error, s)
        | some db' ↦ (ok tt, record s { db = db' })
      ]

  unfoldable pub count_unread : (room_id user_id : ℕ) → Exec (Backend sql redis) ℕ
  count_unread room_id user_id s = (
    ok (
        count_where sql
          (λ m.
            visible_in room_id m && sender_is_not user_id m.sender_id && unread_by s.db user_id m)
          s.db.messages),
    s,
  )
