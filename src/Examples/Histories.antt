-- ===== src/Examples/Histories.antt =====
-- What happens to a process that starts on empty tables.
use fastapi_realtime_chat.Prelude.{
  ℕ, ◌+◌, ◌≡◌, ◌≢◌, refl, true, Option, none, some, [], ◌∷◌, arith, leb, if◌then◌else◌, Text, codes,
  length,
}
use fastapi_realtime_chat.Exec.{err, wrong_row_count}
use fastapi_realtime_chat.Sql.ListTables.{list_tables}
use fastapi_realtime_chat.Redis.KeyList.{key_list}
use fastapi_realtime_chat.Backend.{Db}
use fastapi_realtime_chat.ConnectionManager.{init}
use fastapi_realtime_chat.Security.{default_settings}
use fastapi_realtime_chat.Security.Plain.{plain}
use fastapi_realtime_chat.Schemas.{user_register, username_alphanumeric, post_register}
use fastapi_realtime_chat.Users.{
  lower, user_fits, token_fits, get_by_username, get_by_email, insert_user, create_token,
}
use fastapi_realtime_chat.Auth
use fastapi_realtime_chat.Auth.{issue_tokens}
use fastapi_realtime_chat.Api.{get_db, register_endpoint, login_endpoint}
use fastapi_realtime_chat.WebSocket.{in_transaction, on_backend}
use fastapi_realtime_chat.Server.{Server, starting}
use fastapi_realtime_chat.Requests.{Request, register, login, Given, Draws, endpoint_of, perform}
use fastapi_realtime_chat.Integrity.{IsIntact}
use fastapi_realtime_chat.Integrity.History.{here, next, request, History-IsIntact}
use fastapi_realtime_chat.Protocol.{presence, online}
use fastapi_realtime_chat.Protocol.Wire.{
  event_dict, ws_notification_event, ws_system_message, readings,
}
use fastapi_realtime_chat.Protocol.Reading.{fitting, readings-event_dict}
use fastapi_realtime_chat.Examples.World.{at_id}
use fastapi_realtime_chat.Examples.Sessions.{out}

abbrev pub nothing : Db list_tables
nothing = record {
  users = [];
  rooms = [];
  members = [];
  messages = [];
  receipts = [];
  notifications = [];
  tokens = [];
}

pub nothing-IsIntact : IsIntact list_tables nothing
nothing-IsIntact = record {
  users = record {
    id = record { at = λ k. omega arith };
    username = record { at = λ k. omega arith };
    email = record { at = λ k. omega arith };
  };
  rooms = record { id = record { at = λ k. omega arith }; owner = record { at = λ k h. refl } };
  members = record {
    id = record { at = λ k. omega arith };
    pair = λ r. record { at = λ k. omega arith };
    room = record { at = λ k h. refl };
    user = record { at = λ k h. refl };
  };
  messages = record {
    id = record { at = λ k. omega arith };
    room = record { at = λ k h. refl };
    sender = record { at = λ k h. refl };
  };
  receipts = record {
    id = record { at = λ k. omega arith };
    message = record { at = λ k h. refl };
    user = record { at = λ k h. refl };
  };
  notifications = record {
    id = record { at = λ k. omega arith };
    recipient = record { at = λ k h. refl };
    actor = record { at = λ k h. refl };
    room = record { at = λ k h. refl };
    message = record { at = λ k h. refl };
  };
  tokens = record {
    id = record { at = λ k. omega arith };
    hash = record { at = λ k. omega arith };
    user = record { at = λ k h. refl };
  };
}

abbrev pub given : Given
given = record {
  crypto = plain;
  email_of = λ t. if leb (length t) 254 then some t else none;
  settings = default_settings;
}

abbrev pub draws : ℕ → Draws
draws now = record {
  now = now;
  fresh = λ i. at_id (i + now);
  salt = 9;
  tokens = record { access = now; refresh = now + 1; row = now + 2 };
}

abbrev pub first : Server list_tables key_list
first = starting (record {
  manager = init;
  backend = record {
    db = nothing;
    committed = nothing;
    store = [];
    redis_up = true;
    published = [];
  };
  outputs = [];
  sessions = λ _. in_transaction;
})

abbrev pub carol : Request
carol = register (record {
  username = codes "Carol_1";
  email = codes "C@x";
  password = codes "password";
  display_name = none;
})

abbrev pub signs_in : Request
signs_in = login (codes "CAROL_1") (codes "password")

-- The server behind a request.
abbrev pub after : ℕ → Request → Server list_tables key_list → Server list_tables key_list
after now r s = record s { process = (on_backend out (perform given (draws now) r) s.process).1 }

abbrev pub last : Server list_tables key_list
last = after 50 signs_in (after 10 carol first)

History-IsIntact_example :
    let b = last.process.backend in
    IsIntact list_tables b.db
    × (b.db ≡ b.committed)
    × ((d : Draws) (r : Request) → (perform given d r b).0 ≢ err wrong_row_count)
History-IsIntact_example =
    History-IsIntact out given {s = first}
      (next (next here (request (draws 10) carol)) (request (draws 50) signs_in)) nothing-IsIntact
      refl

-- Both requests are served.
served :
    (length last.process.backend.committed.users ≡ 1)
    × (length last.process.backend.committed.tokens ≡ 1)
unfolding perform endpoint_of get_db post_register user_register username_alphanumeric
    register_endpoint Auth.register lower get_by_username get_by_email insert_user user_fits
    login_endpoint Auth.login issue_tokens create_token token_fits
served = (refl, refl)

-- Times as texts of one letter.
abbrev stamp : ℕ → Text
stamp t = t ∷ []

abbrev read_stamp : Text → Option ℕ
read_stamp [] = none
read_stamp (t ∷ rest) = some t

readings-event_dict_example :
    let o = event_dict stamp (presence (codes "7") (codes "bob") online) in
    (fitting (readings read_stamp o) ≡ presence (codes "7") (codes "bob") online ∷ [])
    × (ws_notification_event o ≡ none)
    × (ws_system_message o ≡ none)
readings-event_dict_example =
    readings-event_dict stamp read_stamp (λ t. refl) (presence (codes "7") (codes "bob") online)
