-- ===== src/Examples/Requests.antt =====
-- Requests to the HTTP endpoints, with the bodies as they come.
use fastapi_realtime_chat.Prelude.{
  [], ◌∷◌, ◌==◌, ◌+◌, ◌≤◌, ◌≡◌, refl, true, false, Option, none, some, arith, ltb, leb,
  if◌then◌else◌, Text, codes, nat_eq, text_eq, length,
}
use fastapi_realtime_chat.Exec.{Result, ok, err, integrity_error}
use fastapi_realtime_chat.Sql.ListTables.{list_tables, sort}
use fastapi_realtime_chat.Redis.KeyList.{key_list}
use fastapi_realtime_chat.Models.{User, RoomMember}
use fastapi_realtime_chat.Backend.{Backend, commit}
use fastapi_realtime_chat.Rooms.{
  new_member, get_by_id, is_member, get_member, add_member, member_fits,
}
use fastapi_realtime_chat.RoomService.{join_room}
use fastapi_realtime_chat.Rooms.Membership.{members_of}
use fastapi_realtime_chat.Chat.{PaginatedMessages, get_room_history, require_member}
use fastapi_realtime_chat.Messages.{get_room_messages}
use fastapi_realtime_chat.Security.{default_settings}
use fastapi_realtime_chat.Security.Plain.{plain}
use fastapi_realtime_chat.Users.{
  new_user, fits_columns, user_fits, lower, get_by_username, get_by_email, insert_user,
}
use fastapi_realtime_chat.Auth.{TokenDraws, register, login, issue_tokens}
use fastapi_realtime_chat.Api.{register_endpoint, get_messages, get_db, except, join_error}
use fastapi_realtime_chat.Api.Race.{join_race}
use fastapi_realtime_chat.Schemas.{
  UserRegister, within, all, username_alphanumeric, user_register, page_query, post_register,
  get_history,
}
use fastapi_realtime_chat.Schemas.Accounts.{
  is_ascii, is_name_char, post_register_fits, post_register-login,
}
use fastapi_realtime_chat.Schemas.Bounds.{history_bounded}
use fastapi_realtime_chat.Upload.{decimal}
use fastapi_realtime_chat.Uuid
use fastapi_realtime_chat.Routes
use fastapi_realtime_chat.Routes.{http_get, routes}
use fastapi_realtime_chat.Routes.Reached.{first_match, route-url}
use fastapi_realtime_chat.Examples.World.{at_id, alice, bob, world, room_text}

-- Short texts are addresses.
abbrev email_of : Text → Option Text
email_of t = if leb (length t) 254 then some t else none

email_of-short :
    (t e : Text)
    → all is_ascii t ≡ true
    → email_of t ≡ some e
    → (length e ≤ 254) × (all is_ascii e ≡ true)
email_of-short t e ascii h = ground arith

abbrev body : UserRegister
body = record {
  username = codes "Carol_1";
  email = codes "C@x";
  password = codes "password";
  display_name = none;
}

abbrev carol : User
carol =
    new_user (at_id 3) (codes "carol_1") (codes "c@x") (codes "password") (some (codes "carol_1"))

abbrev posted : Result User × Backend list_tables key_list
posted = post_register email_of plain (at_id 3) 9 body world

carol_registers : posted.0 ≡ ok carol
unfolding post_register user_register username_alphanumeric register_endpoint register
    get_by_username get_by_email insert_user user_fits lower
carol_registers = refl

post_register_fits_example :
    (within 3 50 (codes "carol_1") ≡ true)
    × (all is_name_char (codes "carol_1") ≡ true)
    × (lower (codes "carol_1") ≡ codes "carol_1")
    × (fits_columns carol ≡ true)
post_register_fits_example =
    post_register_fits email_of plain (at_id 3) 9 body world carol carol_registers refl refl
      email_of-short (λ p h. omega (arith, h))

carol_lower : lower (codes "CAROL_1") ≡ lower (codes "Carol_1")
unfolding lower
carol_lower = refl

abbrev draws : TokenDraws
draws = record { access = 30; refresh = 31; row = 32 }

post_register-login_example :
    login plain default_settings 100 draws (codes "CAROL_1") (codes "password") posted.1
    ≡ issue_tokens plain default_settings 100 draws 3 posted.1
post_register-login_example =
    post_register-login email_of plain (at_id 3) 9 body world carol carol_registers
      (codes "CAROL_1") carol_lower default_settings 100 draws

-- A name with a space is refused, a name of two letters too.
two_words : username_alphanumeric (codes "a b c") ≡ none
unfolding username_alphanumeric
two_words = refl

short_name : user_register email_of (record body { username = codes "al" }) ≡ none
unfolding user_register username_alphanumeric lower
short_name = refl

-- Two requests of Bob to join the room at a time.
abbrev bob_member : RoomMember
bob_member = new_member (at_id 11) 7 2 false

abbrev joined : Result RoomMember × Backend list_tables key_list
joined = join_room (at_id 11) 7 bob world

bob_joins : joined.0 ≡ ok bob_member
unfolding join_room get_by_id is_member get_member add_member member_fits
bob_joins = refl

join_race_example :
    let s' = (commit joined.1).1 in
    (get_db (except join_error (add_member (at_id 12) 7 2 false)) s' ≡ (err integrity_error, s'))
    × (members_of 7 2 s'.db ≡ 1)
join_race_example = join_race (at_id 11) (at_id 12) 7 bob world bob_member bob_joins

abbrev history : Result PaginatedMessages × Backend list_tables key_list
history = get_history 7 1 50 alice world

-- The first page of the room has its one message.
answered : (res : PaginatedMessages) × (history.0 ≡ ok res) × (length res.items ≡ 1)
unfolding get_history page_query get_messages get_room_history require_member is_member get_member
    get_room_messages sort
answered = (_, refl, refl)

history_bounded_example :
    (length answered.0.items ≤ 50)
    × (50 ≤ 200)
    × (res' : PaginatedMessages) × ((get_history 7 (1 + 1) 50 alice world).0 ≡ ok res')
    × (answered.0.has_next ≡ ltb 0 (length res'.items))
history_bounded_example = history_bounded 7 1 50 alice world answered.0 answered.1

ten : decimal 20 10 ≡ codes "10"
unfolding decimal
ten = refl

room_named : (room_text == []) ≡ false
unfolding Uuid.str
room_named = refl

room_not_me : (room_text == codes "me") ≡ false
unfolding Uuid.str
room_not_me = refl

route-url_example :
    first_match.route routes http_get (codes "api" ∷ codes "v1" ∷ codes "rooms" ∷ room_text ∷ [])
    ≡ some (Routes.get_room, room_text ∷ [])
route-url_example = route-url first_match Routes.get_room room_text room_named room_not_me
