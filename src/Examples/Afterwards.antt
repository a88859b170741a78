-- ===== src/Examples/Afterwards.antt =====
-- Requests after what happens in Examples/Histories.
use fastapi_realtime_chat.Prelude.{
  ◌≡◌, ◌≢◌, true, codes, ap, arith, refl, [], ◌∷◌, Text, nat_eq, text_eq,
}
use fastapi_realtime_chat.Exec.{ok, err, credentials_exception, wrong_row_count}
use fastapi_realtime_chat.Rooms.{
  new_room, insert_room, room_fits, add_member, member_fits, member_count,
}
use fastapi_realtime_chat.RoomService.{create_room}
use fastapi_realtime_chat.Users.{
  lower, user_fits, token_fits, get_user, get_by_username, get_by_email, insert_user, create_token,
}
use fastapi_realtime_chat.Schemas.{user_register, username_alphanumeric, post_register}
use fastapi_realtime_chat.Auth
use fastapi_realtime_chat.Auth.{issue_tokens, fresh_at, get_current_user}
use fastapi_realtime_chat.Auth.Requests.{get_current_user_lem}
use fastapi_realtime_chat.Api.{
  get_db, register_endpoint, login_endpoint, create_room_endpoint, get_room,
}
use fastapi_realtime_chat.Responses.{RoomResponse, room_response, user_public}
use fastapi_realtime_chat.Requests.{Request, login, endpoint_of, perform}
use fastapi_realtime_chat.Errors.{uncaught}
use fastapi_realtime_chat.Errors.Answered.{request_answered}
use fastapi_realtime_chat.Security.{default_settings, create_access_token}
use fastapi_realtime_chat.Security.Plain.{plain}
use fastapi_realtime_chat.Integrity.History.{here, next, History}
use fastapi_realtime_chat.Integrity.History
use fastapi_realtime_chat.Integrity.Created.{created_room_shown}
use fastapi_realtime_chat.Examples.World.{at_id}
use fastapi_realtime_chat.Examples.World
use fastapi_realtime_chat.Examples.Sessions.{out}
use fastapi_realtime_chat.Examples.Histories.{
  given, draws, carol, signs_in, first, last, nothing-IsIntact,
}
use fastapi_realtime_chat.Examples.Deletions.{busy, registered}

-- An access token of the user who has signed in.
abbrev access_token : Text
access_token = create_access_token plain default_settings (fresh_at 50 50) registered.id

abbrev told : RoomResponse
told = room_response (new_room (at_id 70) World.request registered.id) 1

known_by_token : (get_current_user plain 60 access_token busy).0 ≡ ok registered
unfolding perform endpoint_of get_db post_register user_register username_alphanumeric
    register_endpoint Auth.register lower get_by_username get_by_email insert_user user_fits
    login_endpoint Auth.login issue_tokens create_token token_fits get_user
known_by_token =
    ap (λ r. r.0)
      (get_current_user_lem plain default_settings (fresh_at 50 50) registered.id 60 busy
        (omega arith)).0

creates : (create_room_endpoint (at_id 70) (at_id 71) World.request registered busy).0 ≡ ok told
unfolding perform endpoint_of get_db post_register user_register username_alphanumeric
    register_endpoint Auth.register lower get_by_username get_by_email insert_user user_fits
    login_endpoint Auth.login issue_tokens create_token token_fits create_room_endpoint create_room
    insert_room room_fits add_member member_fits member_count
creates = refl

created_room_shown_example :
    let b = (create_room_endpoint (at_id 70) (at_id 71) World.request registered busy).1 in
    ((get_current_user plain 60 access_token b).0 ≡ ok registered)
    × (get_room told.id registered b
        ≡ (ok (record { base = told; members = user_public registered ∷ [] }), b))
created_room_shown_example =
    created_room_shown out given {s = first} {t = last}
      (next (next here (History.request (draws 10) carol)) (History.request (draws 50) signs_in))
      nothing-IsIntact refl 60 access_token registered known_by_token (at_id 70) (at_id 71)
      World.request told creates

abbrev mistyped : Request
mistyped = login (codes "carol_1") (codes "passw0rd")

refused : (perform given (draws 60) mistyped busy).0 ≡ err credentials_exception
unfolding perform endpoint_of get_db post_register user_register username_alphanumeric
    register_endpoint Auth.register lower get_by_username get_by_email insert_user user_fits
    login_endpoint Auth.login issue_tokens create_token token_fits
refused = refl

request_answered_example :
    (uncaught credentials_exception ≡ true) × (credentials_exception ≢ wrong_row_count)
request_answered_example =
    request_answered out given {s = first} {t = last}
      (next (next here (History.request (draws 10) carol)) (History.request (draws 50) signs_in))
      nothing-IsIntact refl (draws 60) mistyped credentials_exception refused
