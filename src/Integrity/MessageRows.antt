-- ===== src/Integrity/MessageRows.antt =====
-- The repositories of messages, and those that no endpoint calls, are safe.
use fastapi_realtime_chat.Prelude.{
  ℕ, ◌≡◌, refl, true, Option, none, some, List, [], ◌∷◌, Text, nat_eq, text_eq, Bool-cases, inl,
  inr,
}
use fastapi_realtime_chat.Exec.{integrity_error, Result, ok, err}
use fastapi_realtime_chat.Sql.{Sql}
use fastapi_realtime_chat.Redis.{Redis}
use fastapi_realtime_chat.Models.{MessageReadReceipt, NotificationType, Fresh}
use fastapi_realtime_chat.Backend.{Db, Backend}
use fastapi_realtime_chat.Rooms.{has_user_id}
use fastapi_realtime_chat.Messages.{
  new_message, receipt_fits, insert_receipts, with_receipt, create_with_sender, mark_read,
}
use fastapi_realtime_chat.Notifications.{create_notification, new_notification}
use fastapi_realtime_chat.Users.{update_avatar, revoke_where, revoke_all_for_user, delete_expired}
use fastapi_realtime_chat.Integrity.{IsIntact}
use fastapi_realtime_chat.Integrity.Writes.{
  update_users-IsIntact, insert_message-IsIntact, insert_receipt-IsIntact,
}
use fastapi_realtime_chat.Integrity.Others.{
  insert_notification-IsIntact, revoke_tokens-IsIntact, delete_tokens-IsIntact,
}
use fastapi_realtime_chat.Chat.Sending.{create_with_sender_lem}
use fastapi_realtime_chat.Integrity.Rows.{
  written, Safe-get_member, Safe-add_member, Safe-remove_member, Safe-member_count, Safe-get_by_id,
  Safe-get_public_rooms, Safe-get_user_rooms, Safe-insert_room, Safe-get_room_messages,
  Safe-count_unread, Safe-get_for_user, Safe-unread_count, Safe-mark_all_read, Safe-get_user,
  Safe-get_by_username, Safe-get_by_email, Safe-insert_user, Safe-update_last_seen,
  Safe-create_token, Safe-get_valid_token, Safe-revoke_token,
}
use fastapi_realtime_chat.Integrity.Safe.{Sound, Good, Safe, decided}

some_injective : {A : Type 0} {a b : A} → some a ≡ some b → b ≡ a
some_injective e = cc

none_apart : {A : Type 0} (a : A) → none ≡ some a → ⊥
none_apart a e = cc

insert_receipts-IsIntact :
    {sql : Sql} (rs : List MessageReadReceipt) (db db' : Db sql)
    → IsIntact sql db
    → insert_receipts rs db ≡ some db'
    → IsIntact sql db'
unfolding insert_receipts
insert_receipts-IsIntact {sql} [] db db' h e = let same : db' ≡ db = some_injective e in rw same h
insert_receipts-IsIntact (r ∷ rs) db db' h e = elim (Bool-cases (receipt_fits r db)) [
  | inl fits ↦
      insert_receipts-IsIntact rs (with_receipt r db) db' (insert_receipt-IsIntact db h r fits)
        (rw fits at e)
  | inr no_fit ↦ absurd (none_apart db' (rw no_fit at e))
]

module _ {sql : Sql} {redis : Redis} where
  pub Safe-create_with_sender :
      (fresh : Fresh) (r u : ℕ) (c i : Option Text)
      → Safe {sql = sql} {redis = redis} (create_with_sender fresh r u c i)
  Safe-create_with_sender fresh r u c i = record {
    at = λ s h. rw (create_with_sender_lem fresh r u c i s) (
        decided _ _ _
          (λ fits. (
            written h (insert_message-IsIntact s.db h.db (new_message fresh r u c i) u refl fits),
            refl,
          ))
          (λ no_fit. (h, refl)));
  }

  inserted :
      (s : Backend sql redis) (o : Option (Db sql))
      → Sound s
      → ((db' : Db sql) → o ≡ some db' → IsIntact sql db')
      → Good {A = Unit {0}} (elim o as (λ _. Result (Unit {0}) × Backend sql redis) [
        | none ↦ (err integrity_error, s)
        | some db' ↦ (ok tt, record s { db = db' })
      ])
  inserted s none h k = (h, refl)
  inserted s (some db') h k = (written h (k db' refl), refl)

  pub Safe-mark_read :
      (fresh : ℕ → Fresh) (ids : List ℕ) (u : ℕ)
      → Safe {sql = sql} {redis = redis} (mark_read fresh ids u)
  unfolding mark_read
  Safe-mark_read fresh ids u = record {
    at = λ s h. inserted s _ h (λ db' e. insert_receipts-IsIntact _ s.db db' h.db e);
  }

  -- Of the repositories that no endpoint calls.
  pub Safe-update_avatar :
      (u : ℕ) (url : Text) → Safe {sql = sql} {redis = redis} (update_avatar u url)
  unfolding update_avatar
  Safe-update_avatar u url = record {
    at = λ s h. (Safe-get_user u).at _ (
        written h
          (update_users-IsIntact s.db h.db (has_user_id u) _ (λ x. refl) (λ x. refl) (λ x. refl)));
  }

  pub Safe-revoke_all_for_user : (u : ℕ) → Safe {sql = sql} {redis = redis} (revoke_all_for_user u)
  unfolding revoke_all_for_user revoke_where
  Safe-revoke_all_for_user u = record {
    at = λ s h. (written h (revoke_tokens-IsIntact s.db h.db _ true), refl);
  }

  pub Safe-delete_expired : (now : ℕ) → Safe {sql = sql} {redis = redis} (delete_expired now)
  unfolding delete_expired
  Safe-delete_expired now = record {
    at = λ s h. (written h (delete_tokens-IsIntact s.db h.db _), refl);
  }

  pub Safe-create_notification :
      (fresh : Fresh) (to : ℕ) (t : NotificationType) (content : Text)
      (actor room message : Option ℕ)
      → Safe {sql = sql} {redis = redis} (create_notification fresh to t content actor room message)
  unfolding create_notification
  Safe-create_notification fresh to t content actor room message = record {
    at = λ s h.
        decided _ _ _
          (λ fits. (
            written h (
                insert_notification-IsIntact s.db h.db
                  (new_notification fresh to t content actor room message) fits),
            refl,
          ))
          (λ no_fit. (h, refl));
  }

pub ruleset row_rules = (
  Safe-get_member, Safe-add_member, Safe-remove_member, Safe-member_count, Safe-get_by_id,
  Safe-get_public_rooms, Safe-get_user_rooms, Safe-insert_room, Safe-get_room_messages,
  Safe-count_unread, Safe-get_for_user, Safe-unread_count, Safe-mark_all_read, Safe-get_user,
  Safe-get_by_username, Safe-get_by_email, Safe-insert_user, Safe-update_last_seen,
  Safe-create_token, Safe-get_valid_token, Safe-revoke_token, Safe-create_with_sender,
  Safe-mark_read,
)
