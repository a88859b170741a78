-- ===== src/WebSocket.antt =====
-- The WebSocket endpoint of one process: app/websocket/router.py.
pub mod Cleanup
pub mod Dispatch
pub mod Lifecycle
pub mod Delivery
pub mod Expiry
use fastapi_realtime_chat.Prelude.{
  ℕ, Bool, true, false, not, ◌&&◌, nat_beq, none, some, List, [], ◌∷◌, ◌++◌, if◌then◌else◌, ◌==◌,
  Text, codes, nat_eq, text_eq,
}
use fastapi_realtime_chat.Exec.{
  Error, value_error, missing_greenlet, websocket_disconnect, ok, err, Exec, pure, raise, lift,
  modify_state, catch, ◌>>=◌, ◌>>◌,
}
use fastapi_realtime_chat.Uuid
use fastapi_realtime_chat.Sql.{Sql}
use fastapi_realtime_chat.Redis.{Redis}
use fastapi_realtime_chat.Protocol.{
  Socket, Event, pong, error, presence, online, offline, Output, send, close,
}
use fastapi_realtime_chat.Models.{User, Fresh}
use fastapi_realtime_chat.Backend.{Backend, commit, rollback}
use fastapi_realtime_chat.Rooms.{is_member}
use fastapi_realtime_chat.Users.{update_last_seen}
use fastapi_realtime_chat.Presence.{set_online, set_offline}
use fastapi_realtime_chat.Handlers.{
  Payload, Outside, text_or_empty, Kind, chat_message, typing_start, typing_stop, mark_read,
  unknown, is_empty, no_ids, all_ids, list_or_empty, kind_of, handler,
}
use fastapi_realtime_chat.ConnectionManager.{
  ConnectionManager, connect, disconnect, broadcast_to_room,
}

-- What one wait for the client gives.
pub data Incoming : Type 0 where
  timeout : Incoming
  disconnected : Incoming
  -- A frame that is no JSON object.
  malformed : Incoming
  -- A message, and the defaults of the rows that it makes.
  message : (fresh : ℕ → Fresh) → Payload → Incoming

-- The session of an endpoint, which has loaded `current_user`: in a transaction, with none since its
-- last commit, or rolled back. A rollback of a transaction expires what the session has loaded.
pub data Session : Type 0 where
  in_transaction settled expired : Session

abbrev pub is_expired : Session → Bool
is_expired in_transaction = false
is_expired settled = false
is_expired expired = true

abbrev pub after_query : Bool → Session → Session
after_query true settled = in_transaction
after_query has_queried session = session

abbrev pub after_commit : Session → Session
after_commit in_transaction = settled
after_commit session = session

abbrev pub after_rollback : Session → Session
after_rollback in_transaction = expired
after_rollback session = session

-- Whether a handler reads `user`, if only to log it, and whether it queries the database.
abbrev pub reads_user : Kind → Payload → Bool
reads_user chat_message payload = true
reads_user typing_start payload = true
reads_user typing_stop payload = true
reads_user mark_read payload = not (no_ids payload.message_ids)
reads_user unknown payload = false

abbrev pub queries : Kind → Payload → Bool
queries chat_message payload = not (is_empty payload.content && is_empty payload.image_url)
queries typing_start payload = false
queries typing_stop payload = false
queries mark_read payload =
    not (no_ids payload.message_ids) && all_ids (list_or_empty payload.message_ids)
queries unknown payload = false

-- One process: its registry, its view of database and Redis, and its calls on sockets so far.
pub record Process (sql : Sql) (redis : Redis) : Type 0 where
  pub manager : ConnectionManager
  pub backend : Backend sql redis
  pub outputs : List Output
  -- The sessions of the endpoints, by their sockets.
  pub sessions : Socket → Session

abbrev pub over_session :
    {sql : Sql} {redis : Redis}
    → Socket
    → (Session → Session)
    → Process sql redis
    → Process sql redis
over_session ws f p = record p {
  sessions = λ ws'. if nat_beq ws ws' then f (p.sessions ws') else p.sessions ws';
}

abbrev pub presence_event : User → Bool → Event
presence_event u is_on = presence (Uuid.str u.id) u.username (if is_on then online else offline)

module _ {sql : Sql} {redis : Redis} (out : Outside) where
  -- A coroutine of the services, in the process.
  abbrev pub on_backend : {A : Type 0} → Exec (Backend sql redis) A → Exec (Process sql redis) A
  on_backend m p = let (r, b) = m p.backend in (r, record p { backend = b })

  abbrev pub send_json : Socket → Event → Exec (Process sql redis) (Unit {0})
  send_json ws event p =
      if out.alive ws
      then (ok tt, record p { outputs = p.outputs ++ send ws event ∷ [] })
      else (err websocket_disconnect, p)

  abbrev pub close_socket : Socket → ℕ → Exec (Process sql redis) (Unit {0})
  close_socket ws code p = (ok tt, record p { outputs = p.outputs ++ close ws code ∷ [] })

  abbrev pub broadcast : (room_id : Text) → Event → Exec (Process sql redis) (Unit {0})
  broadcast room_id event p =
      let (sent, m) = broadcast_to_room out.alive room_id event p.manager in
      (ok tt, record p { manager = m; outputs = p.outputs ++ sent })

  -- Reads an attribute of `current_user`.
  abbrev pub read_user : Socket → Exec (Process sql redis) (Unit {0})
  read_user ws p = if is_expired (p.sessions ws) then (err missing_greenlet, p) else (ok tt, p)

  -- The handler, on the user as the session holds it.
  unfoldable pub run_handler :
      Socket → Kind → Payload → User → (room_id : Text) → Exec (Process sql redis) (Unit {0})
  run_handler ws kind payload u room_id = do
    if reads_user kind payload then read_user ws else pure tt
    modify_state (over_session ws (after_query (queries kind payload)))
    on_backend (handler out kind payload u room_id)

  -- The handler in its `try`: a commit, or a rollback and an error to the client.
  unfoldable pub handle_safely :
      Socket → Kind → Payload → User → (room_id : Text) → Exec (Process sql redis) (Unit {0})
  handle_safely ws kind payload u room_id =
      catch
        (do
          run_handler ws kind payload u room_id
          on_backend commit
          modify_state (over_session ws after_commit))
        (λ _. do
          on_backend rollback
          modify_state (over_session ws after_rollback)
          send_json ws (error (codes "Internal error processing message")))

  -- One turn of the loop, on a message.
  unfoldable pub turn :
      Socket → Payload → User → (room_id : Text) → Exec (Process sql redis) (Unit {0})
  turn ws payload u room_id =
      let msg_type = text_or_empty payload.type in
      if msg_type == codes "ping" then send_json ws pong else elim (kind_of msg_type) [
        | unknown ↦ send_json ws (error (codes "Unknown type: " ++ msg_type))
        | kind ↦ handle_safely ws kind payload u room_id
      ]

  -- `try: … except Exception: pass`
  abbrev pub suppress : Exec (Process sql redis) (Unit {0}) → Exec (Process sql redis) (Unit {0})
  suppress m = catch m (λ _. pure tt)

  -- The `finally` block.
  unfoldable pub cleanup : Socket → User → (room_id : Text) → Exec (Process sql redis) (Unit {0})
  cleanup ws u room_id = do
    modify_state (λ p. record p { manager = disconnect room_id (Uuid.str u.id) p.manager })
    read_user ws
    on_backend (set_offline (Uuid.str u.id) u.username)
    broadcast room_id (presence_event u false)
    suppress (do on_backend (update_last_seen out.now u.id); on_backend commit)

  -- `except WebSocketDisconnect` logs only; any other exception is raised again behind `finally`.
  abbrev pub unless_disconnect : Error → Exec (Process sql redis) (Unit {0})
  unless_disconnect websocket_disconnect = pure tt
  unless_disconnect e = raise e

  abbrev pub register : Socket → Text → Text → Exec (Process sql redis) (Unit {0})
  register ws room_id user_id p =
      let (calls, m) = connect ws room_id user_id p.manager in
      (ok tt, record p { manager = m; outputs = p.outputs ++ calls })

module _ {sql : Sql} {redis : Redis} (out : Outside) where
  -- The loop over what the client does; a client that does nothing more times out.
  unfoldable pub message_loop :
      Socket → User → (room_id : Text) → List Incoming → Exec (Process sql redis) (Unit {0})
  message_loop ws u room_id [] = pure tt
  message_loop ws u room_id (timeout ∷ rest) = pure tt
  message_loop ws u room_id (disconnected ∷ rest) = raise websocket_disconnect
  message_loop ws u room_id (malformed ∷ rest) = raise value_error
  message_loop ws u room_id (message fresh payload ∷ rest) = do
    turn (record out { fresh = fresh }) ws payload u room_id
    message_loop ws u room_id rest

  -- The `try` with its `finally`.
  unfoldable pub serve :
      Socket → User → (room_id : Text) → List Incoming → Exec (Process sql redis) (Unit {0})
  serve ws u room_id incoming p =
      let (r, p') = catch (message_loop ws u room_id incoming) (unless_disconnect out) p in
      (do cleanup out ws u room_id; lift r) p'

  unfoldable pub websocket_chat :
      Socket → User → (room_id : Text) → List Incoming → Exec (Process sql redis) (Unit {0})
  websocket_chat ws u room_id incoming = elim (Uuid.parse room_id) [
    | none ↦ close_socket out ws 4001
    | some room ↦ do
      member ← on_backend out (is_member room u.id)
      if not member then close_socket out ws 4003 else do
        modify_state (over_session ws (λ _. in_transaction))
        register out ws room_id (Uuid.str u.id)
        on_backend out (set_online out.settings (Uuid.str u.id) u.username)
        broadcast out room_id (presence_event u true)
        serve ws u room_id incoming
  ]
