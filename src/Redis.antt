-- ===== src/Redis.antt =====
-- What the services rely on of Redis: keys with a time to live, and the documented effect of
-- SETEX, DEL, KEYS and MGET. Channels are lists of published events, kept in Backend.
pub mod KeyList
use fastapi_realtime_chat.Prelude.{
  ℕ, ◌+◌, ◌<◌, ◌≡◌, ◌&&◌, Option, none, some, List, ltb, if◌then◌else◌, is_some, ◌==◌, Text, nat_eq,
  text_eq, strip_prefix, count,
}

pub record Redis : Type 1 where
  pub Store : Type 0
  pub setex : (key : Text) → (seconds : ℕ) → (value : Text) → Store → Store
  pub del : (key : Text) → Store → Store
  pub get : (key : Text) → Store → Option Text
  -- `KEYS prefix*`
  pub keys : (prefix : Text) → Store → List Text
  -- The store some seconds later, with no command in between.
  pub later : ℕ → Store → Store
  -- A key that was set can be read until its time is over.
  pub get-later-setex :
      (n : ℕ) (j k : Text) (seconds : ℕ) (v : Text) (s : Store)
      → 0 < seconds
      → get j (later n (setex k seconds v s))
        ≡ (if k == j then (if ltb n seconds then some v else none) else get j (later n s))
  pub get-later-del :
      (n : ℕ) (j k : Text) (s : Store)
      → get j (later n (del k s)) ≡ (if k == j then none else get j (later n s))
  pub get-later_zero : (j : Text) (s : Store) → get j (later 0 s) ≡ get j s
  pub get-later-later :
      (n m : ℕ) (j : Text) (s : Store) → get j (later n (later m s)) ≡ get j (later (m + n) s)
  -- KEYS lists each key with the prefix that can be read, once, and no other.
  pub count-keys :
      (prefix j : Text) (s : Store)
      → count (λ k. k == j) (keys prefix s)
        ≡ (if is_some (strip_prefix prefix j) && is_some (get j s) then 1 else 0)
