-- ===== src/Errors.antt =====
-- Which exceptions leave a coroutine: those of app/core/exceptions.py are for the endpoints of
-- app/api/v1/endpoints to catch, and must not leave them.
pub mod Rows
pub mod Services
pub mod Endpoints
pub mod Answered
use fastapi_realtime_chat.Prelude.{
  ◌≡◌, refl, Bool, true, false, ◌||◌, if◌then◌else◌, Text, nat_eq, text_eq,
}
use fastapi_realtime_chat.Exec.{
  Error, value_error, integrity_error, wrong_row_count, negative_row_count, redis_error,
  http_exception, Result, ok, err, Exec, pure, raise, lift, gets, guard, catch, handled, continue,
  ◌>>=◌,
}
use fastapi_realtime_chat.Sql.{Sql}
use fastapi_realtime_chat.Redis.{Redis}
use fastapi_realtime_chat.Protocol.{Event}
use fastapi_realtime_chat.Backend.{Backend, commit, command, query, publish}

-- An answer of the endpoint, or what no endpoint catches: errors of the database and of Redis, and
-- of a value that a schema does not take.
abbrev pub uncaught : Error → Bool
uncaught (http_exception status_code detail) = true
uncaught integrity_error = true
uncaught wrong_row_count = true
uncaught negative_row_count = true
uncaught redis_error = true
uncaught value_error = true
uncaught e = false

-- A result, or an error that is among these or the others named.
abbrev pub among : {A : Type 0} → (Error → Bool) → Result A → Bool
among others (ok a) = true
among others (err e) = uncaught e || others e

pub record Among {A : Type 0} (others : Error → Bool) (r : Result A) : Type 0 where
  pub at : among others r ≡ true

pub record Yields {S A : Type 0} (others : Error → Bool) (x : Result A × S) : Type 0 where
  pub at : among others x.0 ≡ true

pub record Raises {S A : Type 0} (others : Error → Bool) (m : Exec S A) : Type 0 where
  pub at : (s : S) → Yields others (m s)

module _ {S A : Type 0} {others : Error → Bool} where
  pub Raises-pure : (a : A) → Raises {S = S} others (pure a)
  Raises-pure a = record { at = λ s. record { at = refl } }

  pub Raises-gets : (f : S → A) → Raises others (gets f)
  Raises-gets f = record { at = λ s. record { at = refl } }

  pub Raises-lift : (r : Result A) → Among others r → Raises {S = S} others (lift r)
  Raises-lift r h = record { at = λ s. record { at = h.at } }

  pub Raises-raise :
      (e : Error) → (uncaught e || others e) ≡ true → Raises {S = S} {A = A} others (raise e)
  Raises-raise e h = record { at = λ s. record { at = h } }

  pub Raises-if :
      (b : Bool) (m n : Exec S A)
      → Raises others m
      → Raises others n
      → Raises others (if b then m else n)
  Raises-if true m n km kn = km
  Raises-if false m n km kn = kn

  -- A coroutine that reads only.
  pub Raises-read :
      (r : S → Result A) → ((s : S) → Among others (r s)) → Raises others (λ s. (r s, s))
  Raises-read r h = record { at = λ s. record { at = (h s).at } }

  -- A test of the state that decides what happens.
  pub tested :
      (b : Bool) (x y : Result A × S)
      → Yields others x
      → Yields others y
      → Yields others (if b then x else y)
  tested true x y kx ky = kx
  tested false x y kx ky = ky

module _ {S A : Type 0} {others others' : Error → Bool} where
  handled-Yields :
      (f : Error → Error)
      → ((e : Error) → (uncaught e || others e) ≡ true → (uncaught (f e) || others' (f e)) ≡ true)
      → (r : Result A) (s : S) → Among others r
      → Yields others' (handled r (λ e. raise (f e)) s)
  handled-Yields f turned (ok a) s h = record { at = refl }
  handled-Yields f turned (err e) s h = record { at = turned e h.at }

  -- `try: m except …: raise f(…)`
  pub Raises-catch :
      (f : Error → Error) (m : Exec S A)
      → ((e : Error) → (uncaught e || others e) ≡ true → (uncaught (f e) || others' (f e)) ≡ true)
      → Raises others m
      → Raises others' (catch m (λ e. raise (f e)))
  Raises-catch f m turned km = record {
    at = λ s. handled-Yields f turned (m s).0 (m s).1 (record { at = (km.at s).at });
  }

module _ {S A B : Type 0} {others : Error → Bool} where
  continue-Yields :
      (r : Result A) (f : A → Exec S B) (s : S)
      → Among others r
      → ((a : A) → Raises others (f a))
      → Yields others (continue r f s)
  continue-Yields (ok a) f s h k = (k a).at s
  continue-Yields (err e) f s h k = record { at = h.at }

  pub Raises-bind :
      (m : Exec S A) (f : A → Exec S B)
      → Raises others m
      → ((a : A) → Raises others (f a))
      → Raises others (m >>= f)
  Raises-bind m f km kf = record {
    at = λ s. continue-Yields (m s).0 f (m s).1 (record { at = (km.at s).at }) kf;
  }

module _ {S : Type 0} {others : Error → Bool} where
  pub Raises-guard :
      (b : Bool) (e : Error) → (uncaught e || others e) ≡ true → Raises {S = S} others (guard b e)
  Raises-guard true e h = record { at = λ s. record { at = refl } }
  Raises-guard false e h = record { at = λ s. record { at = h } }

module _ {sql : Sql} {redis : Redis} {others : Error → Bool} where
  pub Raises-commit : Raises others (commit {sql = sql} {redis = redis})
  Raises-commit = record { at = λ s. record { at = refl } }

  pub Raises-publish :
      (channel : Text) (event : Event)
      → Raises {S = Backend sql redis} others (publish channel event)
  Raises-publish channel event = record {
    at = λ s. tested s.redis_up _ _ (record { at = refl }) (record { at = refl });
  }

  pub Raises-command :
      (f : redis.Store → redis.Store) → Raises {S = Backend sql redis} others (command f)
  Raises-command f = record {
    at = λ s. tested s.redis_up _ _ (record { at = refl }) (record { at = refl });
  }

  pub Raises-query :
      {A : Type 0} (f : redis.Store → A) → Raises {S = Backend sql redis} others (query f)
  Raises-query f = record {
    at = λ s. tested s.redis_up _ _ (record { at = refl }) (record { at = refl });
  }

pub ruleset raise_rules = (
  Raises-pure, Raises-gets, Raises-lift, Raises-raise, Raises-if, Raises-bind, Raises-guard,
  Raises-commit, Raises-publish, Raises-command, Raises-query, refl,
)

abbrev pub nothing_else : Error → Bool
nothing_else e = false

-- The errors that the `except` clauses of an endpoint, as a function, turn into answers.
abbrev pub turned : (Error → Error) → Error → Bool
turned f e = uncaught (f e)
