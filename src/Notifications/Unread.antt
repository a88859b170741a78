-- ===== src/Notifications/Unread.antt =====
-- The unread count of app/repositories/notification_repo.py.
use fastapi_realtime_chat.Prelude.{
  ℕ, ◌+◌, ◌≡◌, refl, ◌∙◌, Bool, Option, List, [], ◌∷◌, arith, nat_beq, nat_beq_iff, if◌then◌else◌,
  Text, nat_eq, text_eq, count,
}
use fastapi_realtime_chat.Exec.{ok}
use fastapi_realtime_chat.Sql.{Sql, count_where}
use fastapi_realtime_chat.Sql.Counting.{count-ext, count-map}
use fastapi_realtime_chat.Redis.{Redis}
use fastapi_realtime_chat.Models.{User, Notification, NotificationType, Fresh}
use fastapi_realtime_chat.Backend.{Backend}
use fastapi_realtime_chat.Notifications.{
  is_for, unread_for, set_read, new_notification, unread_count, mark_all_read, create_notification,
  read_all,
}

count-unread_or_not :
    (u v : ℕ) (xs : List Notification)
    → count (λ n. unread_for v (if unread_for u n then set_read n else n)) xs
      ≡ (if nat_beq u v then 0 else count (unread_for v) xs)
count-unread_or_not u v [] = ground arith
count-unread_or_not u v (x ∷ xs) = ground (arith, count-unread_or_not u v xs, nat_beq_iff u v)

module _ {sql : Sql} {redis : Redis} where
  count-mark_all_read :
      (q : Notification → Bool) (u : ℕ) (s : Backend sql redis)
      → count_where sql q (mark_all_read u s).1.db.notifications
        ≡ count
            (λ n. q (if unread_for u n then set_read n else n))
            (sql.scan Notification s.db.notifications)
  unfolding mark_all_read
  count-mark_all_read q u s =
      sql.count-update Notification q (unread_for u) set_read s.db.notifications
      ∙ count-map q (λ n. if unread_for u n then set_read n else n)
          (sql.scan Notification s.db.notifications)

  -- `POST /notifications/read-all` commits, and leaves its user no unread notification; every other
  -- user has as many unread ones as before, and every user as many notifications.
  pub unread_count-read_all :
      (current_user : User) (v : ℕ) (s : Backend sql redis)
      → let s' = (read_all current_user s).1 in
        ((unread_count v s').0 ≡ (if nat_beq current_user.id v then ok 0 else (unread_count v s).0))
        × (count_where sql (is_for v) s'.db.notifications
            ≡ count_where sql (is_for v) s.db.notifications)
        × (s'.committed ≡ s'.db)
  unfolding read_all unread_count mark_all_read
  unread_count-read_all current_user v s =
      let u = current_user.id in
      let rows = sql.scan Notification s.db.notifications in
      (
        ground (arith, count-mark_all_read (unread_for v) u s, count-unread_or_not u v rows),
        count-mark_all_read (is_for v) u s ∙ count-ext _ _ rows (λ n. ground arith),
        refl,
      )

  -- A notification that is created counts once, as unread, for its recipient only.
  pub unread_count-create_notification :
      (fresh : Fresh) (recipient v : ℕ) (kind : NotificationType) (content : Text)
      (actor room msg : Option ℕ) (s : Backend sql redis) (n : Notification)
      → (create_notification fresh recipient kind content actor room msg s).0 ≡ ok n
      → (unread_count v (create_notification fresh recipient kind content actor room msg s).1).0
        ≡ ok (
            (if nat_beq recipient v then 1 else 0)
            + count_where sql (unread_for v) s.db.notifications)
  unfolding create_notification unread_count
  unread_count-create_notification fresh recipient v kind content actor room msg s n h = ground (
    arith,
    sql.count-insert Notification (unread_for v)
        (new_notification fresh recipient kind content actor room msg) s.db.notifications,
  )
