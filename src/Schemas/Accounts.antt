-- ===== src/Schemas/Accounts.antt =====
-- Registration through app/schemas/user.py and app/api/v1/endpoints/auth.py.
use fastapi_realtime_chat.Prelude.{
  ℕ, ◌≤◌, ◌≡◌, refl, sym, ap, ◌∙◌, inl, inr, Bool, true, ◌&&◌, ◌||◌, Option, some, [], ◌∷◌, arith,
  leb, nat_beq, nat_beq_iff, Option-cases, Text, nat_eq, text_eq, length,
}
use fastapi_realtime_chat.Exec.{ok, Exec}
use fastapi_realtime_chat.Sql.{Sql}
use fastapi_realtime_chat.Redis.{Redis}
use fastapi_realtime_chat.Models.{User, Fresh}
use fastapi_realtime_chat.Backend.{Backend, result-cases}
use fastapi_realtime_chat.Security.{Crypto, TokenSettings}
use fastapi_realtime_chat.Users.{fits_columns, lower, to_lower}
use fastapi_realtime_chat.Auth.{TokenDraws, or_username, register, login, issue_tokens}
use fastapi_realtime_chat.Auth.Registration.{register-ok, register-login_as}
use fastapi_realtime_chat.Api.{register_endpoint}
use fastapi_realtime_chat.Schemas.{
  UserRegister, within, at_most, is_alnum, isalnum, all, remove_char, user_register,
  username_alphanumeric, post_register,
}

abbrev pub is_ascii : ℕ → Bool
is_ascii c = leb c 127

-- A character of a stored username.
abbrev pub is_name_char : ℕ → Bool
is_name_char c =
    (leb b'0' c && leb c b'9') || (leb b'a' c && leb c b'z') || nat_beq c b'_' || nat_beq c b'-'

to_lower_twice : (c : ℕ) → to_lower (to_lower c) ≡ to_lower c
to_lower_twice c = ground arith

pub lower-lower : (s : Text) → lower (lower s) ≡ lower s
unfolding lower
lower-lower [] = refl
lower-lower (c ∷ s) = ground (arith, lower-lower s, to_lower_twice c)

pub length-lower : (s : Text) → length (lower s) ≡ length s
unfolding lower
length-lower [] = refl
length-lower (c ∷ s) = ground (arith, length-lower s)

abbrev alnum_or_dash : Text → Bool
alnum_or_dash s = all is_alnum (remove_char b'-' (remove_char b'_' s))

all-lower : (s : Text) → alnum_or_dash s ≡ true → all is_name_char (lower s) ≡ true
unfolding lower
all-lower [] h = refl
all-lower (c ∷ s) h = ground (arith, all-lower s, nat_beq_iff b'_' c, nat_beq_iff b'-' c)

isalnum-all : (s : Text) → isalnum s ≡ true → all is_alnum s ≡ true
isalnum-all [] h = refl
isalnum-all (c ∷ s) h = h

module _ (email_of : Text → Option Text) (raw body : UserRegister)
    (accepted : user_register email_of raw ≡ some body) where
  user_register-some :
      (isalnum (remove_char b'-' (remove_char b'_' raw.username)) ≡ true)
      × (email_of raw.email ≡ some body.email)
      × (within 3 50 raw.username ≡ true)
      × (within 8 128 raw.password ≡ true)
      × (at_most 100 raw.display_name ≡ true)
      × (body.username ≡ lower raw.username)
      × (body.password ≡ raw.password)
      × (body.display_name ≡ raw.display_name)
  unfolding user_register username_alphanumeric
  user_register-some = ground arith

  accepted-username :
      (body.username ≡ lower raw.username)
      × (within 3 50 body.username ≡ true)
      × (all is_name_char body.username ≡ true)
  accepted-username =
      let (alnum, address, long, secret, shown, name, password, display) = user_register-some in
      (
        name,
        rw name (rw (length-lower raw.username) long),
        rw name (
            all-lower raw.username
              (isalnum-all (remove_char b'-' (remove_char b'_' raw.username)) alnum)),
      )

accepted_display :
    (email_of : Text → Option Text) (raw body : UserRegister)
    → user_register email_of raw ≡ some body
    → leb (length (or_username body.display_name body.username)) 100 ≡ true
accepted_display email_of raw body accepted =
    let (alnum, address, long, secret, shown, u, p, d) =
      user_register-some email_of raw body accepted in
    let (same, within_name, chars) = accepted-username email_of raw body accepted in
    ground (arith, shown, d, within_name)

module _ {sql : Sql} {redis : Redis} (email_of : Text → Option Text) (crypto : Crypto)
    (fresh : Fresh) (salt : ℕ) (raw : UserRegister) (s : Backend sql redis) (u : User)
    (done : (post_register email_of crypto fresh salt raw s).0 ≡ ok u) where
  abbrev registered_as : UserRegister → Exec (Backend sql redis) User
  registered_as body =
      register crypto fresh salt body.username body.email body.password body.display_name

  post_register-ok :
      (body : UserRegister) × (user_register email_of raw ≡ some body)
      × ((registered_as body s).0 ≡ ok u)
      × ((post_register email_of crypto fresh salt raw s).1.db.users
          ≡ (registered_as body s).1.db.users)
  unfolding post_register register_endpoint
  post_register-ok = elim (Option-cases (user_register email_of raw)) [
    | inl e ↦ absurd (ground arith)
    | inr (body, e) ↦ elim (result-cases (registered_as body s).0) [
      | inl (x, e') ↦ (body, e, ground arith, ground arith)
      | inr (x, e') ↦ absurd (ground arith)
    ]
  ]

  -- With a requested name and address in ASCII, such addresses normalised to ASCII of at most 254
  -- characters, and hashes of at most 255 of passwords of at most 128: an account that
  -- `POST /auth/register` answers has a name of 3 to 50 characters, small letters, digits, "_" and
  -- "-" only, which `lower` leaves as it is, and every text of it fits its column.
  pub post_register_fits :
      all is_ascii raw.username ≡ true
      → all is_ascii raw.email ≡ true
      → ((t e : Text)
          → all is_ascii t ≡ true
          → email_of t ≡ some e
          → (length e ≤ 254) × (all is_ascii e ≡ true))
      → ((password : Text) → length password ≤ 128 → length (crypto.hash salt password) ≤ 255)
      → (within 3 50 u.username ≡ true)
        × (all is_name_char u.username ≡ true)
        × (lower u.username ≡ u.username)
        × (fits_columns u ≡ true)
  post_register_fits name_ascii email_ascii short_address short_hash =
      let (body, accepted, registered, users) = post_register-ok in
      let (name, long, chars) = accepted-username email_of raw body accepted in
      let (alnum, address, wide, secret, display, n, password, d) =
        user_register-some email_of raw body accepted in
      let (is_new, absent, inserted) =
        register-ok crypto fresh salt body.username body.email body.password body.display_name s u
          registered in
      let same : u.username ≡ body.username =
        ap (λ (x : User). x.username) is_new
        ∙ ap lower name
        ∙ lower-lower raw.username
        ∙ sym name in
      let shown = accepted_display email_of raw body accepted in
      (
        rw same long,
        rw same chars,
        rw same (rw name (lower-lower raw.username)),
        rw is_new (
            ground (
              arith,
              long,
              shown,
              length-lower body.username,
              length-lower body.email,
              (short_address raw.email body.email email_ascii address).0,
              short_hash body.password (rw password (ground (arith, secret))),
            )),
      )

  -- Who has registered over HTTP logs in with the password and the name as it was typed, in upper
  -- or lower case, and gets tokens for the new account.
  pub post_register-login :
      (name : Text)
      → lower name ≡ lower raw.username
      → (settings : TokenSettings) (now : ℕ) (draws : TokenDraws)
      → let s' = (post_register email_of crypto fresh salt raw s).1 in
        login crypto settings now draws name raw.password s'
        ≡ issue_tokens crypto settings now draws u.id s'
  post_register-login name same settings now draws =
      let (body, accepted, registered, users) = post_register-ok in
      let (as_typed, long, chars) = accepted-username email_of raw body accepted in
      let password = (user_register-some email_of raw body accepted).6 in
      let named = same ∙ sym (lower-lower raw.username) ∙ ap lower (sym as_typed) in
      let s' = (post_register email_of crypto fresh salt raw s).1 in
      ap (λ p. login crypto settings now draws name p s') (sym password)
      ∙ register-login_as crypto fresh salt body.username body.email body.password body.display_name
          s u registered name named s' users settings now draws
