-- ===== src/Examples/Accounts.antt =====
-- Tokens that are their claims: a login, a rotation, and a token that is presented again.
use fastapi_realtime_chat.Prelude.{
  ℕ, ◌+◌, ◌≡◌, refl, false, none, some, arith, ltb, if◌then◌else◌, ◌==◌, Text, codes, nat_eq,
  text_eq,
}
use fastapi_realtime_chat.Exec.{authentication_error, Result, ok, err}
use fastapi_realtime_chat.Uuid
use fastapi_realtime_chat.Sql.ListTables.{list_tables}
use fastapi_realtime_chat.Redis.KeyList.{key_list}
use fastapi_realtime_chat.Backend.{Backend}
use fastapi_realtime_chat.Security.{
  default_settings, create_token, create_access_token, create_refresh_token, decode_refresh_token,
}
use fastapi_realtime_chat.Security.Plain.{
  plain, encode, decode, put, put_option, first, first_option, claims_of,
}
use fastapi_realtime_chat.Users
use fastapi_realtime_chat.Users.TokenRows.{valid_rows}
use fastapi_realtime_chat.Auth.{TokenPair, TokenDraws, fresh_at, issue_tokens, login, refresh}
use fastapi_realtime_chat.Auth.Rotation.{refresh_rotates, refresh_replay}
use fastapi_realtime_chat.Examples.World.{at_id, world}
use fastapi_realtime_chat.Exec.{credentials_exception}
use fastapi_realtime_chat.Models.{User}
use fastapi_realtime_chat.Users.{
  new_user, user_fits, lower, get_user, get_by_username, get_by_email, insert_user,
}
use fastapi_realtime_chat.Auth.{register, get_current_user}
use fastapi_realtime_chat.Api.{get_db, refresh_endpoint}
use fastapi_realtime_chat.Api.Atomic.{refresh_atomic}
use fastapi_realtime_chat.Exec.{written_if}
use fastapi_realtime_chat.Auth.Requests.{user_behind, get_current_user_lem}

abbrev draws : TokenDraws
draws = record { access = 30; refresh = 31; row = 32 }

abbrev draws_again : TokenDraws
draws_again = record { access = 40; refresh = 41; row = 42 }

abbrev pair_of : TokenDraws → TokenPair
pair_of d = record {
  access_token = create_access_token plain default_settings (fresh_at 100 d.access) 1;
  refresh_token = create_refresh_token plain default_settings (fresh_at 100 d.refresh) 1;
}

abbrev logged_in : Backend list_tables key_list
logged_in = (login plain default_settings 100 draws (codes "Alice") (codes "secret") world).1

abbrev token : Text
token = (pair_of draws).refresh_token

abbrev rotated : Result TokenPair × Backend list_tables key_list
rotated = refresh plain default_settings 100 draws_again token logged_in

alice_rotates : rotated.0 ≡ ok (pair_of draws_again)
unfolding login refresh issue_tokens create_refresh_token create_access_token create_token
    decode_refresh_token encode decode put put_option first first_option claims_of
    Users.get_by_username Users.lower Users.create_token Users.token_fits Users.get_valid_token
    Users.revoke_token Users.revoke_where Uuid.str Uuid.parse
alice_rotates = refl

refresh_rotates_example :
    (((pair_of draws_again).refresh_token == token) ≡ false)
    × ((later : ℕ) (h : Text)
        → valid_rows later h rotated.1.db ≡ (
            if token == h
            then 0
            else if (pair_of draws_again).refresh_token == h
            then (if ltb later (100 + default_settings.refresh_token_expire) then 1 else 0)
            else valid_rows later h logged_in.db))
refresh_rotates_example =
    refresh_rotates plain default_settings 100 draws_again token logged_in (pair_of draws_again)
      alice_rotates

refresh_replay_example :
    (message : Text) × (refresh plain default_settings 150 draws token rotated.1
      ≡ (err (authentication_error message), rotated.1))
refresh_replay_example =
    refresh_replay plain default_settings 100 draws_again token logged_in (pair_of draws_again)
      alice_rotates 150 draws

get_current_user_lem_example :
    (get_current_user plain 200 (create_access_token plain default_settings (at_id 5) 1) world
      ≡ (user_behind (get_user 1 world).0, world))
    × (get_current_user plain 200 (create_refresh_token plain default_settings (at_id 5) 1) world
        ≡ (err credentials_exception, world))
get_current_user_lem_example =
    get_current_user_lem plain default_settings (at_id 5) 1 200 world (omega arith)

-- Carol registers.
abbrev carol : User
carol = new_user (at_id 3) (codes "carol") (codes "c@x") (codes "pass") (some (codes "Carol"))

abbrev registered : Result User × Backend list_tables key_list
registered = register plain (at_id 3) 9 (codes "Carol") (codes "C@x") (codes "pass") none world

carol_registers : registered.0 ≡ ok carol
unfolding register get_by_username get_by_email insert_user user_fits lower
carol_registers = refl

refresh_atomic_example :
    let done = refresh plain default_settings 100 draws_again token logged_in in
    let s' = (get_db (refresh_endpoint plain default_settings 100 draws_again token) logged_in).1 in
    (s'.db ≡ s'.committed) × (s'.committed ≡ written_if done.0 done.1.db logged_in.committed)
refresh_atomic_example = refresh_atomic plain default_settings 100 draws_again token logged_in
