-- ===== src/Messages/Receipts.antt =====
-- What `mark_read` of app/repositories/message_repo.py writes.
use fastapi_realtime_chat.Prelude.{
  ℕ, suc, ◌+◌, ◌≡◌, ap, inl, inr, Bool, true, not, ◌&&◌, some, List, [], ◌∷◌, map, arith, ltb,
  nat_beq, nat_beq_iff, if◌then◌else◌, Option-cases, nat_eq, text_eq, filter, count,
}
use fastapi_realtime_chat.Exec.{Error, ok, err}
use fastapi_realtime_chat.Sql.{Sql, select_where, count_where}
use fastapi_realtime_chat.Redis.{Redis}
use fastapi_realtime_chat.Models.{MessageReadReceipt, Fresh}
use fastapi_realtime_chat.Backend.{Db, Backend}
use fastapi_realtime_chat.Messages.{
  receipt_of, is_in, new_receipts, with_receipt, insert_receipts, mark_read,
}

-- How often a message stands among those to be marked.
abbrev pub occurrences : ℕ → List ℕ → ℕ
occurrences mid ids = count (λ x. nat_beq x mid) ids

-- Rows of one message and one user.
abbrev pub receipts_of : {sql : Sql} → (message_id user_id : ℕ) → Db sql → ℕ
receipts_of {sql} m u db = count_where sql (receipt_of m u) db.receipts

pub is_in-count : (m : ℕ) (ids : List ℕ) → is_in m ids ≡ ltb 0 (occurrences m ids)
is_in-count m [] = ground arith
is_in-count m (x ∷ ids) = ground (arith, is_in-count m ids)

is_in_same : (x m : ℕ) (ids : List ℕ) → nat_beq x m ≡ true → is_in x ids ≡ is_in m ids
is_in_same x m ids h = ap (λ y. is_in y ids) ((nat_beq_iff x m).0 h)

-- The set `already_read`.
pub is_in-already :
    (m u : ℕ) (ids : List ℕ) (rs : List MessageReadReceipt)
    → is_in m
        (map (λ r. r.message_id) (filter (λ r. is_in r.message_id ids && nat_beq r.user_id u) rs))
      ≡ is_in m ids && ltb 0 (count (receipt_of m u) rs)
is_in-already m u ids [] = ground arith
is_in-already m u ids (r ∷ rs) =
    ground (arith, is_in-already m u ids rs, is_in_same r.message_id m ids)

count-new_receipts :
    (fresh : ℕ → Fresh) (u : ℕ) (ids : List ℕ) (i m u' : ℕ)
    → count (receipt_of m u') (new_receipts fresh u ids i)
      ≡ (if nat_beq u u' then occurrences m ids else 0)
count-new_receipts fresh u [] i m u' = ground arith
count-new_receipts fresh u (x ∷ ids) i m u' =
    ground (arith, count-new_receipts fresh u ids (suc i) m u')

-- Keeping what is not in a list keeps all occurrences of a number, or none.
occurrences-filter :
    (m : ℕ) (already ids : List ℕ)
    → occurrences m (filter (λ x. not (is_in x already)) ids)
      ≡ (if is_in m already then 0 else occurrences m ids)
occurrences-filter m already [] = ground arith
occurrences-filter m already (x ∷ ids) =
    ground (arith, occurrences-filter m already ids, is_in_same x m already)

module _ {sql : Sql} where
  count-insert_receipts :
      (q : MessageReadReceipt → Bool) (rs : List MessageReadReceipt) (db db' : Db sql)
      → insert_receipts rs db ≡ some db'
      → count_where sql q db'.receipts ≡ count q rs + count_where sql q db.receipts
  unfolding insert_receipts
  count-insert_receipts q [] db db' h = ground arith
  count-insert_receipts q (r ∷ rs) db db' h = ground (
    arith,
    count-insert_receipts q rs (with_receipt r db) db',
    sql.count-insert MessageReadReceipt q r db.receipts,
  )

  -- Only receipts are written.
  pub messages-insert_receipts :
      (rs : List MessageReadReceipt) (db db' : Db sql)
      → insert_receipts rs db ≡ some db'
      → db'.messages ≡ db.messages
  unfolding insert_receipts
  messages-insert_receipts [] db db' h = ground arith
  messages-insert_receipts (r ∷ rs) db db' h =
      ground (arith, messages-insert_receipts rs (with_receipt r db) db')

module _ {sql : Sql} {redis : Redis} where
  module _ (fresh : ℕ → Fresh) (ids : List ℕ) (u : ℕ) (s : Backend sql redis) where
    abbrev pub already : List ℕ
    already =
        map (λ r. r.message_id)
          (select_where sql (λ r. is_in r.message_id ids && nat_beq r.user_id u) s.db.receipts)

    abbrev pub new_ids : List ℕ
    new_ids = filter (λ mid. not (is_in mid already)) ids

    mark_read-ok :
        (mark_read fresh ids u s).0 ≡ ok tt
        → (db' : Db sql) × (insert_receipts (new_receipts fresh u new_ids 0) s.db ≡ some db')
          × ((mark_read fresh ids u s).1 ≡ record s { db = db' })
    unfolding mark_read
    mark_read-ok h = elim (Option-cases (insert_receipts (new_receipts fresh u new_ids 0) s.db)) [
      | inl e ↦ absurd (ground arith)
      | inr (db', e) ↦ (db', e, ground arith)
    ]

    -- With nothing new to mark, nothing happens.
    pub mark_read_none : new_ids ≡ [] → mark_read fresh ids u s ≡ (ok tt, s)
    unfolding mark_read insert_receipts
    mark_read_none e = rw (e, mark_read)

    occurrences-new_ids :
        (m : ℕ)
        → occurrences m new_ids
          ≡ (if nat_beq (receipts_of m u s.db) 0 then occurrences m ids else 0)
    occurrences-new_ids m = ground (
      arith,
      occurrences-filter m already ids,
      is_in-already m u ids (sql.scan MessageReadReceipt s.db.receipts),
      is_in-count m ids,
    )

    -- After a successful `mark_read` a message that the user had read has the receipts that it
    -- had; one that the user had not read has a receipt for each time that it stands in the list;
    -- the receipts of other users are as before.
    pub receipts_of-mark_read :
        (mark_read fresh ids u s).0 ≡ ok tt
        → (m u' : ℕ)
        → receipts_of m u' (mark_read fresh ids u s).1.db
          ≡ (if nat_beq u u' && nat_beq (receipts_of m u s.db) 0 then occurrences m ids else 0)
            + receipts_of m u' s.db
    receipts_of-mark_read h m u' =
        let (db', e, same) = mark_read-ok h in
        rw same (
          ground (
            arith,
            count-insert_receipts (receipt_of m u') (new_receipts fresh u new_ids 0) s.db db' e,
            count-new_receipts fresh u new_ids 0 m u',
            occurrences-new_ids m,
          ))

    -- `mark_read` writes no message.
    pub messages-mark_read :
        (mark_read fresh ids u s).0 ≡ ok tt
        → (mark_read fresh ids u s).1.db.messages ≡ s.db.messages
    messages-mark_read h =
        let (db', e, same) = mark_read-ok h in
        rw same (messages-insert_receipts (new_receipts fresh u new_ids 0) s.db db' e)

    -- A `mark_read` that raises writes nothing.
    pub mark_read_err :
        (e : Error) → (mark_read fresh ids u s).0 ≡ err e → (mark_read fresh ids u s).1 ≡ s
    unfolding mark_read
    mark_read_err e h = ground arith
