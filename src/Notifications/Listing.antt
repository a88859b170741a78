-- ===== src/Notifications/Listing.antt =====
-- What `GET /notifications` answers: app/api/v1/endpoints/notifications.py.
use fastapi_realtime_chat.Prelude.{
  ℕ, pos, ◌≡◌, refl, ◌∙◌, true, List, map, arith, leb, if◌then◌else◌, nat_eq, text_eq, length, take,
}
use fastapi_realtime_chat.Exec.{ok}
use fastapi_realtime_chat.Sql.{Sql, Descending, select_where, count_where}
use fastapi_realtime_chat.Sql.Counting.{count-filter, count-ext}
use fastapi_realtime_chat.Sql.Slices.{
  length-count, length-take, length-map, Descending-take, Descending-map,
}
use fastapi_realtime_chat.Redis.{Redis}
use fastapi_realtime_chat.Models.{User, Notification}
use fastapi_realtime_chat.Backend.{Db, Backend}
use fastapi_realtime_chat.Notifications.{
  NotificationResponse, notification_response, unread_for, unread_count, get_for_user,
  get_notifications, unread_count_endpoint,
}

-- The rows that the query gives, before its limit.
abbrev rows : {sql : Sql} → ℕ → Db sql → List Notification
rows {sql} u db =
    sql.order_desc Notification (λ n. n.created_at)
      (select_where sql (unread_for u) db.notifications)

length-rows :
    {sql : Sql} (u : ℕ) (db : Db sql)
    → length (rows u db) ≡ count_where sql (unread_for u) db.notifications
length-rows {sql} u db =
    length-count (rows u db)
    ∙ sql.count-order_desc Notification (λ _. true) (λ n. n.created_at) _
    ∙ count-filter (λ _. true) (unread_for u) (sql.scan Notification db.notifications)
    ∙ count-ext _ _ (sql.scan Notification db.notifications) (λ n. ground arith)

module _ {sql : Sql} {redis : Redis} where
  -- `GET /notifications` of the unread ones gives as many as `GET /notifications/unread-count`
  -- says, or as many as the limit if that is less, the newest first. Neither changes anything.
  pub get_notifications_unread :
      (limit : ℕ) (current_user : User) (s : Backend sql redis)
      → (ns : List NotificationResponse) × (n : ℕ) × (get_notifications true
            (pos limit)
            current_user
            s
          ≡ (ok ns, s))
        × (unread_count_endpoint current_user s ≡ (ok n, s))
        × (length ns ≡ (if leb n limit then n else limit))
        × Descending (λ (r : NotificationResponse). r.created_at) ns
  unfolding get_notifications unread_count_endpoint get_for_user unread_count
  get_notifications_unread limit current_user s =
      let found = rows current_user.id s.db in
      (
        map notification_response (take limit found),
        count_where sql (unread_for current_user.id) s.db.notifications,
        refl,
        refl,
        length-map notification_response (take limit found)
            ∙ rw (length-take limit found, length-rows current_user.id s.db) refl,
        Descending-map notification_response (λ r. r.created_at) (take limit found)
            (Descending-take (λ n. n.created_at) limit found
              (sql.order_desc-Descending Notification (λ n. n.created_at) _)),
      )
