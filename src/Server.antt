-- ===== src/Server.antt =====
-- One process of the server: the endpoint tasks of its sockets, which share the registry and Redis,
-- interleaved in any order (app/websocket/router.py).
pub mod Invariant
pub mod Steps
pub mod Quiet
pub mod Admission
use fastapi_realtime_chat.Prelude.{
  ℕ, ◌≡◌, true, false, none, some, List, ◌++◌, nat_beq, if◌then◌else◌, Text, nat_eq, text_eq,
}
use fastapi_realtime_chat.Exec.{ok}
use fastapi_realtime_chat.Uuid
use fastapi_realtime_chat.Sql.{Sql}
use fastapi_realtime_chat.Redis.{Redis}
use fastapi_realtime_chat.Protocol.{Socket, Event, Output}
use fastapi_realtime_chat.Models.{User}
use fastapi_realtime_chat.Rooms.{is_member}
use fastapi_realtime_chat.Users.{update_last_seen}
use fastapi_realtime_chat.Backend.{Db, commit}
use fastapi_realtime_chat.Presence.{TtlSettings, set_online, set_offline, refresh_presence}
use fastapi_realtime_chat.Presence.Heartbeat.{wait}
use fastapi_realtime_chat.ConnectionManager as Registry
use fastapi_realtime_chat.Handlers.{Payload, Outside}
use fastapi_realtime_chat.Exec.{◌>>◌}
use fastapi_realtime_chat.WebSocket.{
  Process, is_expired, in_transaction, over_session, on_backend, register, close_socket, suppress,
  turn,
}

-- How far the endpoint of a socket has come.
pub data Task : Type 0 where
  -- Not called yet.
  idle : Task
  -- Registered, and `set_online` is still to come.
  entered : User → (room_id : Text) → Task
  -- In the loop, with the heartbeat beside it.
  serving : User → (room_id : Text) → Task
  -- In `finally`, unregistered, and `set_offline` is still to come.
  leaving : User → (room_id : Text) → Task
  -- Shown offline, and `update_last_seen` is still to come.
  departed : User → Task
  -- `finally` has raised before `set_offline`, on a user that a rollback has expired.
  failed : User → Task
  ended : Task

pub record Server (sql : Sql) (redis : Redis) : Type 0 where
  pub process : Process sql redis
  pub task : Socket → Task

abbrev pub update : (Socket → Task) → Socket → Task → Socket → Task
update task ws t ws' = if nat_beq ws ws' then t else task ws'

-- A process that starts, with what database and Redis hold.
abbrev pub starting : {sql : Sql} {redis : Redis} → Process sql redis → Server sql redis
starting p = record { process = record p { manager = Registry.init }; task = λ _. idle }

module _ {sql : Sql} {redis : Redis} (out : Outside) where
  -- One task goes on up to its next wait, or something happens beside the tasks.
  pub data Step (s : Server sql redis) : Server sql redis → Type 0 where
    -- A room that is no UUID, or a user who is no member: the socket is closed.
    unknown_room :
        (ws : Socket) (room_id : Text)
        → s.task ws ≡ idle
        → Uuid.parse room_id ≡ none
        → Step s (record {
          process = (close_socket out ws 4001 s.process).1;
          task = update s.task ws ended;
        })
    not_member :
        (ws : Socket) (u : User) (room_id : Text) (room : ℕ)
        → s.task ws ≡ idle
        → Uuid.parse room_id ≡ some room
        → (is_member room u.id s.process.backend).0 ≡ ok false
        → Step s (record {
          process = (close_socket out ws 4003 s.process).1;
          task = update s.task ws ended;
        })
    -- `manager.connect`
    enters :
        (ws : Socket) (u : User) (room_id : Text) (room : ℕ)
        → s.task ws ≡ idle
        → Uuid.parse room_id ≡ some room
        → (is_member room u.id s.process.backend).0 ≡ ok true
        → Step s (record {
          process =
              (register out ws room_id
                (Uuid.str u.id)
                (over_session ws (λ _. in_transaction) s.process)).1;
          task = update s.task ws (entered u room_id);
        })
    -- `set_online`
    announces :
        (ws : Socket) (u : User) (room_id : Text)
        → s.task ws ≡ entered u room_id
        → Step s (record {
          process =
              (on_backend out (set_online out.settings (Uuid.str u.id) u.username) s.process).1;
          task = update s.task ws (serving u room_id);
        })
    -- The loop takes a message.
    takes :
        (ws : Socket) (u : User) (room_id : Text) (payload : Payload)
        → s.task ws ≡ serving u room_id
        → Step s (record s { process = (turn out ws payload u room_id s.process).1 })
    -- The heartbeat.
    beats :
        (ws : Socket) (u : User) (room_id : Text)
        → s.task ws ≡ serving u room_id
        → Step s (record s {
          process =
              (on_backend out
                (refresh_presence out.settings (Uuid.str u.id) u.username)
                s.process).1;
        })
    -- The loop ends, however it does, and `finally` begins: `manager.disconnect`.
    leaves :
        (ws : Socket) (u : User) (room_id : Text)
        → s.task ws ≡ serving u room_id
        → Step s (record {
          process = record s.process {
            manager = Registry.disconnect room_id (Uuid.str u.id) s.process.manager;
          };
          task = update s.task ws (leaving u room_id);
        })
    -- `current_user.username` is read, and raises.
    fails :
        (ws : Socket) (u : User) (room_id : Text)
        → s.task ws ≡ leaving u room_id
        → is_expired (s.process.sessions ws) ≡ true
        → Step s (record s { task = update s.task ws (failed u) })
    -- `set_offline`
    signs_off :
        (ws : Socket) (u : User) (room_id : Text)
        → s.task ws ≡ leaving u room_id
        → is_expired (s.process.sessions ws) ≡ false
        → Step s (record {
          process = (on_backend out (set_offline (Uuid.str u.id) u.username) s.process).1;
          task = update s.task ws (departed u);
        })
    -- `update_last_seen`, which may fail.
    ends :
        (ws : Socket) (u : User)
        → s.task ws ≡ departed u
        → Step s (record {
          process =
              (suppress out
                (do on_backend out (update_last_seen out.now u.id); on_backend out commit)
                s.process).1;
          task = update s.task ws ended;
        })
    -- A broadcast of any task, or of the subscriber, has sent to a snapshot taken earlier, and
    -- drops the users whose sends failed.
    drops :
        (room_id : Text) (stale : List Text) (sent : List Output)
        → Step s (record s {
          process = record s.process {
            manager = Registry.drop_stale room_id stale s.process.manager;
            outputs = s.process.outputs ++ sent;
          };
        })
    -- Time passes.
    passes :
        (seconds : ℕ)
        → Step s
            (record s { process = record s.process { backend = wait seconds s.process.backend } })

module _ {sql : Sql} {redis : Redis} (settings : TtlSettings) where
  -- What the tasks reach, in any order. The outside differs from step to step: the sockets that take
  -- messages, the time, the defaults of new rows.
  pub data Reach (s : Server sql redis) : Server sql redis → Type 0 where
    here : Reach s s
    next :
        {t t' : Server sql redis} (out : Outside)
        → out.settings ≡ settings
        → Reach s t
        → Step out t t'
        → Reach s t'
    -- HTTP requests and other processes have changed the tables, in whatever way, and published.
    writes :
        {t : Server sql redis} (db committed : Db sql) (published : List (Text × Event))
        → Reach s t
        → Reach s (record t {
          process = record t.process {
            backend = record t.process.backend {
              db = db;
              committed = committed;
              published = published;
            };
          };
        })
