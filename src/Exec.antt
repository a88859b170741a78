-- ===== src/Exec.antt =====
-- Coroutines that change a state and may raise: app/core/exceptions.py and the other exceptions
-- that the code meets. What was written before a raise stays written.
use fastapi_realtime_chat.Prelude.{
  ℕ, ◌≡◌, refl, Bool, true, false, ◌++◌, arith, Text, codes, nat_eq, text_eq,
}

pub data Error : Type 0 where
  authentication_error : (message : Text) → Error
  authorization_error : (message : Text) → Error
  not_found_error : (message : Text) → Error
  conflict_error : (message : Text) → Error
  validation_error : (message : Text) → Error
  jwt_error : Error
  value_error : Error
  -- A constraint of the database is broken by a flush.
  integrity_error : Error
  -- `scalar_one` and `scalar_one_or_none` on a wrong number of rows.
  wrong_row_count : Error
  -- PostgreSQL refuses a negative LIMIT or OFFSET.
  negative_row_count : Error
  -- An attribute of an expired object is read by asynchronous code: SQLAlchemy's MissingGreenlet.
  missing_greenlet : Error
  -- Redis cannot be reached.
  redis_error : Error
  websocket_disconnect : Error
  http_exception : (status_code : ℕ) → (detail : Text) → Error

-- The factories of app/core/exceptions.py.
abbrev pub credentials_exception : Error
credentials_exception = http_exception 401 (codes "Could not validate credentials")

abbrev pub forbidden_exception : Text → Error
forbidden_exception detail = http_exception 403 detail

abbrev pub not_found_exception : Text → Error
not_found_exception resource = http_exception 404 (resource ++ codes " not found")

abbrev pub conflict_exception : Text → Error
conflict_exception detail = http_exception 409 detail

abbrev pub bad_request_exception : Text → Error
bad_request_exception detail = http_exception 400 detail

pub data Result (A : Type 0) : Type 0 where
  ok : A → Result A
  err : Error → Result A

abbrev pub Exec : Type 0 → Type 0 → Type 0
Exec S A = S → Result A × S

module _ {S A : Type 0} where
  abbrev pub pure : A → Exec S A
  pure a s = (ok a, s)

  abbrev pub raise : Error → Exec S A
  raise e s = (err e, s)

  abbrev pub lift : Result A → Exec S A
  lift r s = (r, s)

  abbrev pub gets : (S → A) → Exec S A
  gets f s = (ok (f s), s)

  abbrev pub handled : Result A → (Error → Exec S A) → Exec S A
  handled (ok a) h s = (ok a, s)
  handled (err e) h s = h e s

  -- `try: m except: h`
  abbrev pub catch : Exec S A → (Error → Exec S A) → Exec S A
  catch m h s = let (r, s') = m s in handled r h s'

module _ {S : Type 0} where
  abbrev pub modify_state : (S → S) → Exec S (Unit {0})
  modify_state f s = (ok tt, f s)

module _ {S A B : Type 0} where
  abbrev pub continue : Result A → (A → Exec S B) → Exec S B
  continue (ok a) f s = f a s
  continue (err e) f s = (err e, s)

  infixl 10 ◌>>=◌ ◌>>◌
  abbrev pub ◌>>=◌ : Exec S A → (A → Exec S B) → Exec S B
  ◌>>=◌ m f s = let (r, s') = m s in continue r f s'

  abbrev pub ◌>>◌ : Exec S A → Exec S B → Exec S B
  m >> n = m >>= λ _. n

-- `if not test: raise e`
abbrev pub guard : {S : Type 0} → Bool → Error → Exec S (Unit {0})
guard true e = pure tt
guard false e = raise e

continue-ok :
    {S A B : Type 0} (r : Result A) (f : A → Exec S B) (s : S) (b : B)
    → (continue r f s).0 ≡ ok b
    → (a : A) × (r ≡ ok a) × (continue r f s ≡ f a s)
continue-ok (ok a) f s b h = (a, refl, refl)
continue-ok (err e) f s b h = absurd (ground arith)

-- A block that returns has returned from its first step.
pub >>=-ok :
    {S A B : Type 0} (m : Exec S A) (f : A → Exec S B) (s : S) (b : B)
    → ((m >>= f) s).0 ≡ ok b
    → (a : A) × ((m s).0 ≡ ok a) × ((m >>= f) s ≡ f a (m s).1)
>>=-ok m f s b h = continue-ok (m s).0 f (m s).1 b h

-- What is left of a write that counts only if its coroutine returns.
abbrev pub written_if : {A D : Type 0} → Result A → D → D → D
written_if (ok a) new old = new
written_if (err e) new old = old
