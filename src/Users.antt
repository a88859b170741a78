-- ===== src/Users.antt =====
-- The tables of users and refresh tokens: app/repositories/user_repo.py and
-- app/repositories/refresh_token_repo.py.
pub mod TokenRows
use fastapi_realtime_chat.Prelude.{
  ℕ, ◌+◌, Bool, true, false, not, ◌&&◌, Option, none, some, List, [], ◌∷◌, ltb, leb, nat_beq,
  if◌then◌else◌, ◌==◌, Text, nat_eq, text_eq, length, any,
}
use fastapi_realtime_chat.Exec.{integrity_error, ok, err, Exec}
use fastapi_realtime_chat.Sql.{Sql, select_where, count_where}
use fastapi_realtime_chat.Redis.{Redis}
use fastapi_realtime_chat.Models.{User, user, RefreshToken, Fresh}
use fastapi_realtime_chat.Backend.{Db, Backend, scalar_one_or_none}
use fastapi_realtime_chat.Rooms.{has_user_id}

-- `s.lower()` on ASCII, of which the model's names and addresses are.
abbrev pub to_lower : ℕ → ℕ
to_lower c = if leb b'A' c && leb c b'Z' then c + 32 else c

unfoldable pub lower : Text → Text
lower [] = []
lower (c ∷ s) = to_lower c ∷ lower s

abbrev pub has_username : Text → User → Bool
has_username name u = u.username == name

abbrev pub has_email : Text → User → Bool
has_email email u = u.email == email

abbrev pub has_hash : Text → RefreshToken → Bool
has_hash token_hash t = t.token_hash == token_hash

abbrev pub valid_hash : (now : ℕ) → Text → RefreshToken → Bool
valid_hash now token_hash t = has_hash token_hash t && not t.is_revoked && ltb now t.expires_at

abbrev pub set_revoked : RefreshToken → RefreshToken
set_revoked t = record t { is_revoked = true }

-- `User(username=…, email=…, hashed_password=…, display_name=…)`
abbrev pub new_user : Fresh → (username email hashed_password : Text) → Option Text → User
new_user fresh username email hashed_password display_name = record {
  id = fresh.id;
  username = username;
  email = email;
  hashed_password = hashed_password;
  display_name = display_name;
  avatar_url = none;
  role = user;
  is_active = true;
  last_seen = none;
  created_at = fresh.now;
}

abbrev pub new_refresh_token : Fresh → ℕ → Text → ℕ → RefreshToken
new_refresh_token fresh user_id token_hash expires_at = record {
  id = fresh.id;
  user_id = user_id;
  token_hash = token_hash;
  expires_at = expires_at;
  is_revoked = false;
  created_at = fresh.now;
}

-- The widths of the columns of `users`.
abbrev pub fits_columns : User → Bool
fits_columns u =
    leb (length u.username) 50
    && leb (length u.email) 255
    && leb (length u.hashed_password) 255
    && elim u.display_name [ none ↦ true | some name ↦ leb (length name) 100 ]

module _ {sql : Sql} where
  -- The constraints of the tables `users` and `refresh_tokens`.
  unfoldable pub user_fits : User → Db sql → Bool
  user_fits u db =
      nat_beq (count_where sql (has_user_id u.id) db.users) 0
      && nat_beq (count_where sql (has_username u.username) db.users) 0
      && nat_beq (count_where sql (has_email u.email) db.users) 0

  unfoldable pub token_fits : RefreshToken → Db sql → Bool
  token_fits t db =
      nat_beq (count_where sql (λ o. nat_beq o.id t.id) db.tokens) 0
      && nat_beq (count_where sql (has_hash t.token_hash) db.tokens) 0
      && ltb 0 (count_where sql (has_user_id t.user_id) db.users)

module _ {sql : Sql} {redis : Redis} where
  unfoldable pub get_user : (user_id : ℕ) → Exec (Backend sql redis) (Option User)
  get_user user_id s = (scalar_one_or_none (select_where sql (has_user_id user_id) s.db.users), s)

  unfoldable pub get_by_username : Text → Exec (Backend sql redis) (Option User)
  get_by_username username s =
      (scalar_one_or_none (select_where sql (has_username (lower username)) s.db.users), s)

  unfoldable pub get_by_email : Text → Exec (Backend sql redis) (Option User)
  get_by_email email s =
      (scalar_one_or_none (select_where sql (has_email (lower email)) s.db.users), s)

  unfoldable pub get_by_ids : (ids : List ℕ) → Exec (Backend sql redis) (List User)
  get_by_ids ids s = (ok (select_where sql (λ u. any (λ id. nat_beq u.id id) ids) s.db.users), s)

  -- `create` of the base repository, at a user.
  unfoldable pub insert_user : User → Exec (Backend sql redis) User
  insert_user u s =
      if user_fits u s.db
      then (ok u, record s { db = record s.db { users = sql.insert User u s.db.users } })
      else (err integrity_error, s)

  unfoldable pub update_last_seen : (now user_id : ℕ) → Exec (Backend sql redis) (Unit {0})
  update_last_seen now user_id s = (
    ok tt,
    record s {
      db = record s.db {
        users =
            sql.update User (has_user_id user_id) (λ u. record u { last_seen = some now })
              s.db.users;
      };
    },
  )

  unfoldable pub update_avatar : (user_id : ℕ) → Text → Exec (Backend sql redis) (Option User)
  update_avatar user_id avatar_url s = get_user user_id (record s {
    db = record s.db {
      users =
          sql.update User (has_user_id user_id) (λ u. record u { avatar_url = some avatar_url })
            s.db.users;
    };
  })

  -- `create_token`, with the hash of the token.
  unfoldable pub create_token :
      Fresh
      → (user_id : ℕ) → (token_hash : Text) → (expires_at : ℕ)
      → Exec (Backend sql redis) RefreshToken
  create_token fresh user_id token_hash expires_at s =
      let rt = new_refresh_token fresh user_id token_hash expires_at in
      if token_fits rt s.db
      then (
        ok rt,
        record s { db = record s.db { tokens = sql.insert RefreshToken rt s.db.tokens } },
      )
      else (err integrity_error, s)

  unfoldable pub get_valid_token : (now : ℕ) → Text → Exec (Backend sql redis) (Option RefreshToken)
  get_valid_token now token_hash s =
      (scalar_one_or_none (select_where sql (valid_hash now token_hash) s.db.tokens), s)

  unfoldable pub revoke_where : (RefreshToken → Bool) → Exec (Backend sql redis) (Unit {0})
  revoke_where p s = (
    ok tt,
    record s { db = record s.db { tokens = sql.update RefreshToken p set_revoked s.db.tokens } },
  )

  unfoldable pub revoke_token : Text → Exec (Backend sql redis) (Unit {0})
  revoke_token token_hash = revoke_where (has_hash token_hash)

  unfoldable pub revoke_all_for_user : (user_id : ℕ) → Exec (Backend sql redis) (Unit {0})
  revoke_all_for_user user_id = revoke_where (λ t. nat_beq t.user_id user_id && not t.is_revoked)

  -- `delete_expired`, with the number of rows that it deletes.
  unfoldable pub delete_expired : (now : ℕ) → Exec (Backend sql redis) ℕ
  delete_expired now s = (
    ok (count_where sql (λ t. leb t.expires_at now) s.db.tokens),
    record s {
      db = record s.db { tokens = sql.delete RefreshToken (λ t. leb t.expires_at now) s.db.tokens };
    },
  )
