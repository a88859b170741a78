-- ===== src/Examples/Deletions.antt =====
-- A deletion after what happens in Examples/Histories.
use fastapi_realtime_chat.Prelude.{◌≡◌, refl, sym, List, [], ◌∷◌, nat_eq, text_eq, length}
use fastapi_realtime_chat.Sql.ListTables.{list_tables}
use fastapi_realtime_chat.Redis.KeyList.{key_list}
use fastapi_realtime_chat.Models.{User}
use fastapi_realtime_chat.Backend.{Backend}
use fastapi_realtime_chat.BaseRepository
use fastapi_realtime_chat.BaseRepository.{a_user, deleted, deleted_user}
use fastapi_realtime_chat.Users.{
  lower, user_fits, token_fits, get_by_username, get_by_email, insert_user, create_token,
}
use fastapi_realtime_chat.Schemas.{user_register, username_alphanumeric, post_register}
use fastapi_realtime_chat.Auth
use fastapi_realtime_chat.Auth.{issue_tokens}
use fastapi_realtime_chat.Api.{get_db, register_endpoint, login_endpoint}
use fastapi_realtime_chat.Requests.{endpoint_of, perform}
use fastapi_realtime_chat.Integrity.History.{here, next, request, History-IsIntact}
use fastapi_realtime_chat.Integrity.Safe.{Sound}
use fastapi_realtime_chat.Integrity.Gone.{Gone, Kept, delete_lem}
use fastapi_realtime_chat.Examples.World.{alice}
use fastapi_realtime_chat.Examples.Sessions.{out}
use fastapi_realtime_chat.Examples.Histories.{
  given, draws, carol, signs_in, first, last, nothing-IsIntact,
}

abbrev first_of : List User → User
first_of [] = alice
first_of (u ∷ us) = u

abbrev pub busy : Backend list_tables key_list
busy = last.process.backend

abbrev pub registered : User
registered = first_of busy.db.users

busy-Sound : Sound busy
busy-Sound =
    let h =
      History-IsIntact out given {s = first}
        (next (next here (request (draws 10) carol)) (request (draws 50) signs_in)) nothing-IsIntact
        refl in
    record { db = h.0; committed = rw (sym h.1) h.0 }

delete_lem_example :
    let later = (BaseRepository.delete (a_user registered) busy).1 in
    Sound later
    × Gone (a_user registered) later.db
    × Kept (a_user registered) busy.db later.db
    × (later.committed ≡ busy.committed)
delete_lem_example = delete_lem (a_user registered) busy busy-Sound

-- Neither the user nor the token of the one session is left.
emptied :
    let later = (BaseRepository.delete (a_user registered) busy).1 in
    (length busy.db.tokens ≡ 1) × (later.db.users ≡ []) × (later.db.tokens ≡ [])
unfolding perform endpoint_of get_db post_register user_register username_alphanumeric
    register_endpoint Auth.register lower get_by_username get_by_email insert_user user_fits
    login_endpoint Auth.login issue_tokens create_token token_fits BaseRepository.delete deleted
    deleted_user
emptied = (refl, refl, refl)
