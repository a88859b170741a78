-- ===== src/Integrity/Safe.antt =====
-- Coroutines that leave the tables intact, and whose queries for one row find no two.
use fastapi_realtime_chat.Prelude.{
  ◌≤◌, ◌≡◌, refl, Bool, true, false, List, [], ◌∷◌, arith, if◌then◌else◌, Text, nat_eq, text_eq,
  length, filter, count, length-filter,
}
use fastapi_realtime_chat.Exec.{
  Error, wrong_row_count, Result, ok, err, Exec, pure, raise, lift, gets, guard, catch, handled,
  ◌>>=◌, continue,
}
use fastapi_realtime_chat.Sql.{Sql}
use fastapi_realtime_chat.Redis.{Redis}
use fastapi_realtime_chat.Protocol.{Event}
use fastapi_realtime_chat.Backend.{
  Backend, scalar_one_or_none, commit, rollback, command, query, publish,
}
use fastapi_realtime_chat.Integrity.{IsIntact}

abbrev pub miscounts : {A : Type 0} → Result A → Bool
miscounts (err wrong_row_count) = true
miscounts r = false

-- A query that one row at most can meet.
pub few :
    {R : Type 0} (p : R → Bool) (xs : List R)
    → count p xs ≤ 1
    → miscounts (scalar_one_or_none (filter p xs)) ≡ false
few p xs h = at_most_one (filter p xs) (omega (arith, length-filter p xs))
  where
    at_most_one :
        {R : Type 0} (ys : List R) → length ys ≤ 1 → miscounts (scalar_one_or_none ys) ≡ false
    at_most_one [] h = refl
    at_most_one (y ∷ []) h = refl
    at_most_one (y ∷ y' ∷ ys) h = absurd (omega arith)

-- Intact tables, in the session and as committed.
pub record Sound {sql : Sql} {redis : Redis} (s : Backend sql redis) : Type 0 where
  pub db : IsIntact sql s.db
  pub committed : IsIntact sql s.committed

-- What a coroutine leaves and gives.
abbrev pub Good : {sql : Sql} {redis : Redis} {A : Type 0} → Result A × Backend sql redis → Type 0
Good {sql} {redis} (r, s) = Sound {sql = sql} {redis = redis} s × (miscounts r ≡ false)

pub record Safe {sql : Sql} {redis : Redis} {A : Type 0} (m : Exec (Backend sql redis) A)
    : Type 0 where
  pub at : (s : Backend sql redis) → Sound s → Good (m s)

module _ {sql : Sql} {redis : Redis} {A : Type 0} where
  pub Safe-pure : (a : A) → Safe {sql = sql} {redis = redis} (pure a)
  Safe-pure a = record { at = λ s h. (h, refl) }

  pub Safe-gets : (f : Backend sql redis → A) → Safe (gets f)
  Safe-gets f = record { at = λ s h. (h, refl) }

  pub Safe-lift : (r : Result A) → miscounts r ≡ false → Safe {sql = sql} {redis = redis} (lift r)
  Safe-lift r e = record { at = λ s h. (h, e) }

  pub Safe-raise :
      (e : Error)
      → miscounts {A = A} (err e) ≡ false
      → Safe {sql = sql} {redis = redis} {A = A} (raise e)
  Safe-raise e h = record { at = λ s sound. (sound, h) }

  pub Safe-if :
      (b : Bool) (m n : Exec (Backend sql redis) A) → Safe m → Safe n → Safe (if b then m else n)
  Safe-if true m n km kn = km
  Safe-if false m n km kn = kn

  -- A test of the state that decides what happens.
  pub decided :
      (b : Bool) (x y : Result A × Backend sql redis)
      → (b ≡ true → Good x)
      → (b ≡ false → Good y)
      → Good (if b then x else y)
  decided true x y kx ky = kx refl
  decided false x y kx ky = ky refl

  -- A coroutine that reads only.
  pub Safe-read :
      (r : Backend sql redis → Result A)
      → ((s : Backend sql redis) → Sound s → miscounts (r s) ≡ false)
      → Safe (λ s. (r s, s))
  Safe-read r h = record { at = λ s sound. (sound, h s sound) }

  -- `try: m except …: raise f(…)`
  Safe-handled :
      (r : Result A) (f : Error → Error) (s : Backend sql redis)
      → ((e : Error) → miscounts {A = A} (err e) ≡ false → miscounts {A = A} (err (f e)) ≡ false)
      → Sound s
      → miscounts r ≡ false
      → Sound (handled r (λ e. raise (f e)) s).1
        × (miscounts (handled r (λ e. raise (f e)) s).0 ≡ false)
  Safe-handled (ok a) f s h sound e = (sound, refl)
  Safe-handled (err x) f s h sound e = (sound, h x e)

  pub Safe-catch :
      (f : Error → Error) (m : Exec (Backend sql redis) A)
      → ((e : Error) → miscounts {A = A} (err e) ≡ false → miscounts {A = A} (err (f e)) ≡ false)
      → Safe m
      → Safe (catch m (λ e. raise (f e)))
  Safe-catch f m h km = record {
    at = λ s sound.
        let (sound', fine) = km.at s sound in Safe-handled (m s).0 f (m s).1 h sound' fine;
  }

module _ {sql : Sql} {redis : Redis} {A B : Type 0} where
  Safe-continue :
      (r : Result A) (f : A → Exec (Backend sql redis) B)
      → miscounts r ≡ false
      → ((a : A) → Safe (f a))
      → Safe (continue r f)
  Safe-continue (ok a) f e k = k a
  Safe-continue (err x) f e k = record { at = λ s h. (h, ground arith) }

  pub Safe-bind :
      (m : Exec (Backend sql redis) A) (f : A → Exec (Backend sql redis) B)
      → Safe m
      → ((a : A) → Safe (f a))
      → Safe (m >>= f)
  Safe-bind m f km kf = record {
    at = λ s h. let (sound, fine) = km.at s h in (Safe-continue (m s).0 f fine kf).at (m s).1 sound;
  }

module _ {sql : Sql} {redis : Redis} where
  pub Safe-guard :
      (b : Bool) (e : Error)
      → miscounts {A = Unit {0}} (err e) ≡ false
      → Safe {sql = sql} {redis = redis} (guard b e)
  Safe-guard true e h = record { at = λ s sound. (sound, refl) }
  Safe-guard false e h = record { at = λ s sound. (sound, h) }

  pub Safe-commit : Safe (commit {sql = sql} {redis = redis})
  Safe-commit = record { at = λ s h. (record { db = h.db; committed = h.db }, refl) }

  pub Safe-rollback : Safe (rollback {sql = sql} {redis = redis})
  Safe-rollback = record {
    at = λ s h. (record { db = h.committed; committed = h.committed }, refl);
  }

  pub Safe-publish :
      (channel : Text) (event : Event) → Safe {sql = sql} {redis = redis} (publish channel event)
  Safe-publish channel event = record {
    at = λ s h.
        decided s.redis_up _ _ (λ up. (record { db = h.db; committed = h.committed }, refl))
          (λ down. (h, refl));
  }

  pub Safe-command : (f : redis.Store → redis.Store) → Safe {sql = sql} {redis = redis} (command f)
  Safe-command f = record {
    at = λ s h.
        decided s.redis_up _ _ (λ up. (record { db = h.db; committed = h.committed }, refl))
          (λ down. (h, refl));
  }

  pub Safe-query : {A : Type 0} (f : redis.Store → A) → Safe {sql = sql} {redis = redis} (query f)
  Safe-query f = record { at = λ s h. decided s.redis_up _ _ (λ up. (h, refl)) (λ down. (h, refl)) }

pub ruleset safe_rules = (
  Safe-pure, Safe-gets, Safe-lift, Safe-raise, Safe-if, Safe-bind, Safe-guard, Safe-commit,
  Safe-rollback, Safe-publish, Safe-command, Safe-query, refl,
)
