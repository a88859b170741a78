-- ===== src/Notifications.antt =====
-- Notifications: app/repositories/notification_repo.py and app/api/v1/endpoints/notifications.py.
pub mod Unread
pub mod Listing
use fastapi_realtime_chat.Prelude.{
  ℕ, ℤ, Bool, true, false, not, ◌&&◌, Option, none, some, List, map, ltb, nat_beq, if◌then◌else◌,
  Text, nat_eq, text_eq, take,
}
use fastapi_realtime_chat.Exec.{integrity_error, ok, err, Exec, lift, gets, pure, ◌>>=◌, ◌>>◌}
use fastapi_realtime_chat.Sql.{Sql, select_where, count_where}
use fastapi_realtime_chat.Redis.{Redis}
use fastapi_realtime_chat.Models.{User, Notification, NotificationType, Fresh}
use fastapi_realtime_chat.Backend.{Db, Backend, row_number, commit}
use fastapi_realtime_chat.Rooms.{has_room_id, has_user_id}
use fastapi_realtime_chat.Messages.{has_message_id}

-- The conditions of the queries.
abbrev pub is_for : ℕ → Notification → Bool
is_for user_id n = nat_beq n.recipient_id user_id

abbrev pub unread_for : ℕ → Notification → Bool
unread_for user_id n = is_for user_id n && not n.is_read

abbrev pub set_read : Notification → Notification
set_read n = record n { is_read = true }

-- `Notification(recipient_id=…, …)`
abbrev pub new_notification :
    Fresh
    → (recipient_id : ℕ) → NotificationType
    → Text
    → (actor_id room_id message_id : Option ℕ) → Notification
new_notification fresh recipient_id notification_type content actor_id room_id message_id = record {
  id = fresh.id;
  recipient_id = recipient_id;
  actor_id = actor_id;
  notification_type = notification_type;
  content = content;
  room_id = room_id;
  message_id = message_id;
  is_read = false;
  created_at = fresh.now;
}

-- app/schemas/notification.py
pub record NotificationResponse : Type 0 where
  pub id : ℕ
  pub recipient_id : ℕ
  pub actor_id : Option ℕ
  pub notification_type : NotificationType
  pub content : Text
  pub room_id : Option ℕ
  pub message_id : Option ℕ
  pub is_read : Bool
  pub created_at : ℕ

-- `NotificationResponse.model_validate(n)`
abbrev pub notification_response : Notification → NotificationResponse
notification_response n = record {
  id = n.id;
  recipient_id = n.recipient_id;
  actor_id = n.actor_id;
  notification_type = n.notification_type;
  content = n.content;
  room_id = n.room_id;
  message_id = n.message_id;
  is_read = n.is_read;
  created_at = n.created_at;
}

-- A foreign key that may be NULL.
abbrev pub null_or : (ℕ → ℕ) → Option ℕ → Bool
null_or rows none = true
null_or rows (some id) = ltb 0 (rows id)

module _ {sql : Sql} where
  -- The constraints of the table `notifications`.
  unfoldable pub notification_fits : Notification → Db sql → Bool
  notification_fits n db =
      nat_beq (count_where sql (λ o. nat_beq o.id n.id) db.notifications) 0
      && ltb 0 (count_where sql (has_user_id n.recipient_id) db.users)
      && null_or (λ id. count_where sql (has_user_id id) db.users) n.actor_id
      && null_or (λ id. count_where sql (has_room_id id) db.rooms) n.room_id
      && null_or (λ id. count_where sql (has_message_id id) db.messages) n.message_id

module _ {sql : Sql} {redis : Redis} where
  unfoldable pub get_for_user :
      (user_id : ℕ)
      → (unread_only : Bool) → (limit : ℤ) → Exec (Backend sql redis) (List Notification)
  get_for_user user_id unread_only limit = do
    limit ← lift (row_number limit)
    gets (λ s.
        let rows =
          if unread_only
          then select_where sql (unread_for user_id) s.db.notifications
          else select_where sql (is_for user_id) s.db.notifications in
        take limit (sql.order_desc Notification (λ n. n.created_at) rows))

  unfoldable pub unread_count : (user_id : ℕ) → Exec (Backend sql redis) ℕ
  unread_count user_id s = (ok (count_where sql (unread_for user_id) s.db.notifications), s)

  unfoldable pub mark_all_read : (user_id : ℕ) → Exec (Backend sql redis) (Unit {0})
  mark_all_read user_id s = (
    ok tt,
    record s {
      db = record s.db {
        notifications = sql.update Notification (unread_for user_id) set_read s.db.notifications;
      };
    },
  )

  unfoldable pub create_notification :
      Fresh
      → (recipient_id : ℕ) → NotificationType
      → Text
      → (actor_id room_id message_id : Option ℕ) → Exec (Backend sql redis) Notification
  create_notification fresh recipient_id notification_type content actor_id room_id message_id s =
      let n =
        new_notification fresh recipient_id notification_type content actor_id room_id message_id in
      if notification_fits n s.db
      then (
        ok n,
        record s {
          db = record s.db { notifications = sql.insert Notification n s.db.notifications };
        },
      )
      else (err integrity_error, s)

  -- The endpoint `POST /notifications/read-all`.
  unfoldable pub read_all : User → Exec (Backend sql redis) (Unit {0})
  read_all current_user = do mark_all_read current_user.id; commit

  -- The endpoints `GET /notifications` and `GET /notifications/unread-count`.
  unfoldable pub get_notifications :
      (unread_only : Bool)
      → (limit : ℤ) → User
      → Exec (Backend sql redis) (List NotificationResponse)
  get_notifications unread_only limit current_user = do
    notifications ← get_for_user current_user.id unread_only limit
    pure (map notification_response notifications)

  unfoldable pub unread_count_endpoint : User → Exec (Backend sql redis) ℕ
  unread_count_endpoint current_user = unread_count current_user.id
