-- ===== src/Backend.antt =====
-- What a request works on: a database session (app/db/session.py), and Redis
-- (app/managers/redis_manager.py) with what has been published on its channels.
use fastapi_realtime_chat.Prelude.{
  ◌≡◌, refl, ◌⊎◌, inl, inr, Bool, Option, none, some, List, [], ◌∷◌, ◌++◌, ℕ, ℤ, pos, negsuc,
  if◌then◌else◌, Text, nat_eq, text_eq,
}
use fastapi_realtime_chat.Exec.{
  Error, wrong_row_count, negative_row_count, redis_error, Result, ok, err, Exec,
}
use fastapi_realtime_chat.Sql.{Sql}
use fastapi_realtime_chat.Redis.{Redis}
use fastapi_realtime_chat.Protocol.{Event}
use fastapi_realtime_chat.Models.{
  User, ChatRoom, RoomMember, Message, MessageReadReceipt, Notification, RefreshToken,
}

pub record Db (sql : Sql) : Type 0 where
  pub users : sql.Table User
  pub rooms : sql.Table ChatRoom
  pub members : sql.Table RoomMember
  pub messages : sql.Table Message
  pub receipts : sql.Table MessageReadReceipt
  pub notifications : sql.Table Notification
  pub tokens : sql.Table RefreshToken

pub record Backend (sql : Sql) (redis : Redis) : Type 0 where
  -- What the session reads, and what has been committed.
  pub db : Db sql
  pub committed : Db sql
  pub store : redis.Store
  pub redis_up : Bool
  -- The events published on each channel, oldest first.
  pub published : List (Text × Event)

-- The result of a query that may have one row at most.
abbrev pub scalar_one_or_none : {R : Type 0} → List R → Result (Option R)
scalar_one_or_none [] = ok none
scalar_one_or_none (r ∷ []) = ok (some r)
scalar_one_or_none (r ∷ r' ∷ rs) = err wrong_row_count

abbrev pub scalar_one : {R : Type 0} → List R → Result R
scalar_one [] = err wrong_row_count
scalar_one (r ∷ []) = ok r
scalar_one (r ∷ r' ∷ rs) = err wrong_row_count

-- The number of a LIMIT or an OFFSET.
abbrev pub row_number : ℤ → Result ℕ
row_number (pos n) = ok n
row_number (negsuc n) = err negative_row_count

module _ {sql : Sql} {redis : Redis} where
  -- `session.commit()` and `session.rollback()`
  abbrev pub commit : Exec (Backend sql redis) (Unit {0})
  commit s = (ok tt, record s { committed = s.db })

  abbrev pub rollback : Exec (Backend sql redis) (Unit {0})
  rollback s = (ok tt, record s { db = s.committed })

  -- A Redis command that changes the store.
  abbrev pub command : (redis.Store → redis.Store) → Exec (Backend sql redis) (Unit {0})
  command f s = if s.redis_up then (ok tt, record s { store = f s.store }) else (err redis_error, s)

  -- A Redis command that reads the store.
  abbrev pub query : {A : Type 0} → (redis.Store → A) → Exec (Backend sql redis) A
  query f s = if s.redis_up then (ok (f s.store), s) else (err redis_error, s)

  -- `r.publish(channel, json.dumps(event))`
  abbrev pub publish : Text → Event → Exec (Backend sql redis) (Unit {0})
  publish channel event s =
      if s.redis_up
      then (ok tt, record s { published = s.published ++ (channel, event) ∷ [] })
      else (err redis_error, s)

-- To split on the result of a query for at most one row.
pub row-cases :
    {R : Type 0} (o : Result (Option R))
    → ((r : R) × (o ≡ ok (some r))) ⊎ (o ≡ ok none) ⊎ ((e : Error) × (o ≡ err e))
row-cases (ok none) = inr (inl refl)
row-cases (ok (some r)) = inl (r, refl)
row-cases (err e) = inr (inr (e, refl))

pub result-cases :
    {A : Type 0} (o : Result A) → ((a : A) × (o ≡ ok a)) ⊎ ((e : Error) × (o ≡ err e))
result-cases (ok a) = inl (a, refl)
result-cases (err e) = inr (e, refl)
