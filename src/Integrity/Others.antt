-- ===== src/Integrity/Others.antt =====
-- The same of notifications and refresh tokens, to which no other table refers.
use fastapi_realtime_chat.Prelude.{
  ℕ, ◌<◌, ◌≡◌, refl, Bool, true, Option, none, some, arith, nat_beq_iff, nat_eq, text_eq,
  text_beq_iff,
}
use fastapi_realtime_chat.Sql.{Sql, count_where}
use fastapi_realtime_chat.Models.{Notification, RefreshToken}
use fastapi_realtime_chat.Backend.{Db}
use fastapi_realtime_chat.Rooms.{has_room_id, has_user_id}
use fastapi_realtime_chat.Messages.{has_message_id}
use fastapi_realtime_chat.Notifications.{notification_fits, null_or}
use fastapi_realtime_chat.Users.{token_fits}
use fastapi_realtime_chat.Integrity.{IsIntact, NotificationsIntact, TokensIntact}
use fastapi_realtime_chat.BaseRepository.{names}
use fastapi_realtime_chat.Integrity.Tables.{
  Unique-insert, Unique-update, Unique-delete, References-insert, References-update,
  References-delete,
}

named_there :
    (rows : ℕ → ℕ) (o : Option ℕ) (k : ℕ) → null_or rows o ≡ true → names o k ≡ true → 0 < rows k
named_there rows none k fits e = absurd (ground arith)
named_there rows (some j) k fits e = ground (arith, nat_beq_iff j k)

module _ {sql : Sql} (db : Db sql) (h : IsIntact sql db) where
  with_notifications-IsIntact :
      {notifications : sql.Table Notification}
      → NotificationsIntact sql db.users db.rooms db.messages notifications
      → IsIntact sql (record db { notifications = notifications })
  with_notifications-IsIntact intact = record {
    users = h.users;
    rooms = h.rooms;
    members = h.members;
    messages = h.messages;
    receipts = h.receipts;
    notifications = intact;
    tokens = h.tokens;
  }

  with_tokens-IsIntact :
      {tokens : sql.Table RefreshToken}
      → TokensIntact sql db.users tokens
      → IsIntact sql (record db { tokens = tokens })
  with_tokens-IsIntact intact = record {
    users = h.users;
    rooms = h.rooms;
    members = h.members;
    messages = h.messages;
    receipts = h.receipts;
    notifications = h.notifications;
    tokens = intact;
  }

  pub insert_notification-IsIntact :
      (n : Notification)
      → notification_fits n db ≡ true
      → IsIntact sql (record db { notifications = sql.insert Notification n db.notifications })
  unfolding notification_fits
  insert_notification-IsIntact n fits = with_notifications-IsIntact (record {
    id =
        Unique-insert db.notifications n (λ k e. ground (arith, nat_beq_iff n.id k))
          h.notifications.id;
    recipient =
        References-insert h.notifications.recipient n
          (λ k e. ground (arith, nat_beq_iff n.recipient_id k));
    actor = References-insert h.notifications.actor n (λ k e.
        named_there (λ id. count_where sql (has_user_id id) db.users) n.actor_id k (ground arith)
          e);
    room = References-insert h.notifications.room n (λ k e.
        named_there (λ id. count_where sql (has_room_id id) db.rooms) n.room_id k (ground arith) e);
    message = References-insert h.notifications.message n (λ k e.
        named_there (λ id. count_where sql (has_message_id id) db.messages) n.message_id k
          (ground arith) e);
  })

  -- An update that sets whether a notification is read.
  pub update_notifications-IsIntact :
      (p : Notification → Bool) (read : Bool)
      → IsIntact sql (record db {
        notifications =
            sql.update Notification p (λ n. record n { is_read = read }) db.notifications;
      })
  update_notifications-IsIntact p read = with_notifications-IsIntact (record {
    id = Unique-update db.notifications p _ (λ k n. refl) h.notifications.id;
    recipient = References-update h.notifications.recipient p _ (λ k n. refl);
    actor = References-update h.notifications.actor p _ (λ k n. refl);
    room = References-update h.notifications.room p _ (λ k n. refl);
    message = References-update h.notifications.message p _ (λ k n. refl);
  })

  pub insert_token-IsIntact :
      (t : RefreshToken)
      → token_fits t db ≡ true
      → IsIntact sql (record db { tokens = sql.insert RefreshToken t db.tokens })
  unfolding token_fits
  insert_token-IsIntact t fits = with_tokens-IsIntact (record {
    id = Unique-insert db.tokens t (λ k e. ground (arith, nat_beq_iff t.id k)) h.tokens.id;
    hash =
        Unique-insert db.tokens t (λ k e. ground (arith, text_beq_iff t.token_hash k))
          h.tokens.hash;
    user = References-insert h.tokens.user t (λ k e. ground (arith, nat_beq_iff t.user_id k));
  })

  pub revoke_tokens-IsIntact :
      (p : RefreshToken → Bool) (revoked : Bool)
      → IsIntact sql (record db {
        tokens = sql.update RefreshToken p (λ t. record t { is_revoked = revoked }) db.tokens;
      })
  revoke_tokens-IsIntact p revoked = with_tokens-IsIntact (record {
    id = Unique-update db.tokens p _ (λ k t. refl) h.tokens.id;
    hash = Unique-update db.tokens p _ (λ k t. refl) h.tokens.hash;
    user = References-update h.tokens.user p _ (λ k t. refl);
  })

  pub delete_tokens-IsIntact :
      (p : RefreshToken → Bool)
      → IsIntact sql (record db { tokens = sql.delete RefreshToken p db.tokens })
  delete_tokens-IsIntact p = with_tokens-IsIntact (record {
    id = Unique-delete db.tokens p h.tokens.id;
    hash = Unique-delete db.tokens p h.tokens.hash;
    user = References-delete h.tokens.user p;
  })

  pub delete_notifications-IsIntact :
      (p : Notification → Bool)
      → IsIntact sql (record db { notifications = sql.delete Notification p db.notifications })
  delete_notifications-IsIntact p = with_notifications-IsIntact (record {
    id = Unique-delete db.notifications p h.notifications.id;
    recipient = References-delete h.notifications.recipient p;
    actor = References-delete h.notifications.actor p;
    room = References-delete h.notifications.room p;
    message = References-delete h.notifications.message p;
  })
