-- ===== src/Messages/Unread.antt =====
-- `mark_read` as `get_unread_count` sees it, of app/repositories/message_repo.py.
use fastapi_realtime_chat.Prelude.{
  ℕ, ◌<◌, ◌≡◌, refl, ap, Bool, true, false, not, ◌&&◌, List, [], ◌∷◌, arith, nat_beq, nat_beq_iff,
  nat_eq, text_eq, filter,
}
use fastapi_realtime_chat.Exec.{ok}
use fastapi_realtime_chat.Sql.{Sql, count_where}
use fastapi_realtime_chat.Sql.Counting.{count-ext}
use fastapi_realtime_chat.Redis.{Redis}
use fastapi_realtime_chat.Models.{Message, MessageReadReceipt, Fresh}
use fastapi_realtime_chat.Backend.{Backend}
use fastapi_realtime_chat.Messages.{
  is_in, visible_in, sender_is_not, unread_by, count_unread, mark_read,
}
use fastapi_realtime_chat.Messages.Receipts.{
  receipts_of, receipts_of-mark_read, messages-mark_read, is_in-count, is_in-already,
  mark_read_none,
}

filter_none :
    (p : ℕ → Bool) (ids : List ℕ) → ((x : ℕ) → is_in x ids ≡ true → p x ≡ false) → filter p ids ≡ []
filter_none p [] h = refl
filter_none p (x ∷ ids) h =
    let here : is_in x (x ∷ ids) ≡ true = ground arith in
    let rest = filter_none p ids (λ y e. h y (ground arith)) in ground (arith, h x here, rest)

module _ {sql : Sql} {redis : Redis} where
  module _ (fresh : ℕ → Fresh) (ids : List ℕ) (u : ℕ) (s : Backend sql redis)
      (h : (mark_read fresh ids u s).0 ≡ ok tt) where
    abbrev after : Backend sql redis
    after = (mark_read fresh ids u s).1

    unread_by-mark_read :
        (m : Message) (u' : ℕ)
        → unread_by after.db u' m ≡ unread_by s.db u' m && not (nat_beq u u' && is_in m.id ids)
    unread_by-mark_read m u' = ground (
      arith,
      receipts_of-mark_read fresh ids u s h m.id u',
      is_in-count m.id ids,
      nat_beq_iff u u',
    )

    -- After a successful `mark_read` the user's unread count leaves out the messages of the list,
    -- and nothing else; the unread counts of the other users are as before.
    pub count_unread-mark_read :
        (r u' : ℕ)
        → (count_unread r u' after).0
          ≡ ok (
              count_where sql
                (λ m.
                  visible_in r m
                  && sender_is_not u' m.sender_id
                  && (unread_by s.db u' m && not (nat_beq u u' && is_in m.id ids)))
                s.db.messages)
    unfolding count_unread
    count_unread-mark_read r u' = rw (messages-mark_read fresh ids u s h) (
        ap ok (
          count-ext _ _ (sql.scan Message s.db.messages)
            (λ m. ground (arith, unread_by-mark_read m u'))))

    marked : (x : ℕ) → is_in x ids ≡ true → 0 < receipts_of x u after.db
    marked x e = ground (arith, receipts_of-mark_read fresh ids u s h x u, is_in-count x ids)

    -- After a successful `mark_read`, to mark the same messages again succeeds and changes
    -- nothing.
    pub mark_read_again : (fresh' : ℕ → Fresh) → mark_read fresh' ids u after ≡ (ok tt, after)
    mark_read_again fresh' = mark_read_none fresh' ids u after (
        filter_none _ ids (λ x e. ground (
          arith,
          is_in-already x u ids (sql.scan MessageReadReceipt after.db.receipts),
          marked x e,
        )))
