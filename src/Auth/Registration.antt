-- ===== src/Auth/Registration.antt =====
-- `register` of app/services/auth_service.py, and the first login with it.
use fastapi_realtime_chat.Prelude.{
  ℕ, ◌≡◌, refl, ap, ◌∙◌, inl, inr, true, Option, some, List, [], ◌∷◌, ◌++◌, arith, Text, codes,
  nat_eq, text_eq, beq_refl,
}
use fastapi_realtime_chat.Exec.{conflict_error, Result, ok, err}
use fastapi_realtime_chat.Sql.{Sql, select_where, count_where}
use fastapi_realtime_chat.Sql.Counting.{only_row}
use fastapi_realtime_chat.Redis.{Redis}
use fastapi_realtime_chat.Models.{User, User-discrete, Fresh}
use fastapi_realtime_chat.Backend.{Backend, scalar_one, scalar_one_or_none, row-cases}
use fastapi_realtime_chat.Security.{Crypto, TokenSettings}
use fastapi_realtime_chat.Users.{
  lower, has_username, new_user, user_fits, get_by_username, get_by_email, insert_user,
}
use fastapi_realtime_chat.Auth.{TokenDraws, or_username, register, issue_tokens, login}

the_one :
    {R : Type 0} (xs : List R) (r : R) → scalar_one xs ≡ ok r → scalar_one_or_none xs ≡ ok (some r)
the_one [] r h = absurd (ground arith)
the_one (x ∷ []) r h = ground arith
the_one (x ∷ y ∷ xs) r h = absurd (ground arith)

module _ {sql : Sql} {redis : Redis} (crypto : Crypto) where
  module _ (fresh : Fresh) (salt : ℕ) (username email password : Text) (display_name : Option Text)
      (s : Backend sql redis) where
    abbrev account : User
    account =
        new_user fresh (lower username) (lower email) (crypto.hash salt password)
          (some (or_username display_name username))

    abbrev registered : Result User × Backend sql redis
    registered = register crypto fresh salt username email password display_name s

    pub register-ok :
        (u : User)
        → registered.0 ≡ ok u
        → (u ≡ account)
          × (count_where sql (has_username (lower username)) s.db.users ≡ 0)
          × (registered.1.db.users ≡ sql.insert User account s.db.users)
    unfolding register get_by_username get_by_email insert_user user_fits
    register-ok u h = elim (row-cases (get_by_username {sql = sql} {redis = redis} username s).0) [
      | inl (x, e) ↦ absurd (ground arith)
      | inr (inr (x, e)) ↦ absurd (ground arith)
      | inr (inl e) ↦ elim (row-cases (get_by_email {sql = sql} {redis = redis} email s).0) [
        | inl (x, e') ↦ absurd (ground arith)
        | inr (inr (x, e')) ↦ absurd (ground arith)
        | inr (inl e') ↦ (ground arith, ground arith, ground arith)
      ]
    ]

    found_again :
        (u : User)
        → registered.0 ≡ ok u
        → (username' : Text) → lower username' ≡ lower username
        → (s' : Backend sql redis) → s'.db.users ≡ registered.1.db.users
        → get_by_username username' s' ≡ (ok (some u), s')
    unfolding get_by_username
    found_again u h username' same s' kept =
        let (is_new, absent, users) = register-ok u h in
        let rows = sql.scan User s.db.users in
        let one =
          only_row User-discrete (has_username (lower username)) account rows
            (sql.scan User (sql.insert User account s.db.users))
            (λ q. sql.count-insert User q account s.db.users) (beq_refl {A = Text} (lower username))
            absent in
        let row : scalar_one_or_none (select_where sql (has_username (lower username')) s'.db.users)
            ≡ ok (some u) =
          rw (same, kept, users, is_new) (the_one _ account one) in
        ap (λ (r : Result (Option User)). (r, s')) row

    -- Any spelling of the name by upper and lower case logs in, as long as the table of users is as
    -- the registration left it.
    pub register-login_as :
        (u : User)
        → registered.0 ≡ ok u
        → (username' : Text) → lower username' ≡ lower username
        → (s' : Backend sql redis) → s'.db.users ≡ registered.1.db.users
        → (settings : TokenSettings) (now : ℕ) (draws : TokenDraws)
        → login crypto settings now draws username' password s'
          ≡ issue_tokens crypto settings now draws u.id s'
    unfolding login
    register-login_as u h username' same s' kept settings now draws =
        let (is_new, absent, users) = register-ok u h in
        let found = found_again u h username' same s' kept in
        let pass : crypto.verify password u.hashed_password ≡ true =
          ap (λ (x : User). crypto.verify password x.hashed_password) is_new
          ∙ crypto.verify-hash salt password in
        let active : u.is_active ≡ true = ap (λ (x : User). x.is_active) is_new in
        ground (arith, found, pass, active)

    -- Who has registered can log in with the same name and password, and gets tokens for the new
    -- account.
    pub register-login :
        (u : User)
        → registered.0 ≡ ok u
        → (settings : TokenSettings) (now : ℕ) (draws : TokenDraws)
        → login crypto settings now draws username password registered.1
          ≡ issue_tokens crypto settings now draws u.id registered.1
    register-login u h = register-login_as u h username refl registered.1 refl

    -- The name of an account is taken, whatever the case of its letters: to register it again is a
    -- conflict, and changes nothing.
    pub register_again :
        (u : User)
        → registered.0 ≡ ok u
        → (fresh' : Fresh) (salt' : ℕ) (username' email' password' : Text)
          (display_name' : Option Text)
        → lower username' ≡ lower username
        → register crypto fresh' salt' username' email' password' display_name' registered.1 ≡ (
          err (conflict_error (codes "Username '" ++ (username' ++ codes "' is already taken"))),
          registered.1,
        )
    unfolding register
    register_again u h fresh' salt' username' email' password' display_name' same =
        ground (arith, found_again u h username' same registered.1 refl)
