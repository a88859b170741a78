-- ===== src/Lib.antt =====
-- The real-time chat server: its rooms, messages, sessions and live connections.
--
-- A browser registers and logs in over HTTP (app/services/auth_service.py), then holds one WebSocket
-- for each room that it shows (app/websocket/router.py). What it sends is dispatched to a handler
-- (app/websocket/handlers.py), which writes to PostgreSQL through the services and repositories
-- and publishes on Redis. Each process keeps the sockets that it holds in one registry
-- (app/managers/connection_manager.py); presence and typing live in Redis keys that expire.
--
-- The files, by what they model:
--   Prelude            tests, lists, texts (lists of code points) and their lemmas
--   Dict               Python's dict and defaultdict as association lists in order of entry
--   Uuid               uuid.UUID(text) and str(uuid), on numbers below 2^128
--   Protocol           the events of app/schemas/websocket.py, sockets, and calls on sockets; Wire
--                      has the events as JSON objects, and the schemas that read them
--   ConnectionManager  app/managers/connection_manager.py; Laws, Consistent and Broadcast hold its
--                      lemmas, Direct and Total those of two methods, Schedule the interleavings
--                      of its critical sections
--   Exec               coroutines that change a state and may raise; app/core/exceptions.py
--   Sql, Redis         what the code relies on of SQLAlchemy with PostgreSQL, and of Redis: two
--                      interfaces of operations and laws; Sql.ListTables and Redis.KeyList fill them
--   Models, Backend    the rows of app/models; a session of app/db/session.py with Redis beside it
--   BaseRepository     app/repositories/base.py, with the ON DELETE of the foreign keys
--   Rooms, RoomService  app/repositories/room_repo.py, app/services/room_service.py
--   Messages, Chat     app/repositories/message_repo.py, app/services/chat_service.py
--   Security           app/core/security.py; Security.Plain fills its parameter
--   Users, Auth        app/repositories/user_repo.py, app/repositories/refresh_token_repo.py,
--                      app/services/auth_service.py, app/dependencies/auth.py
--   Presence           app/services/presence_service.py, app/services/typing_service.py
--   Handlers, WebSocket  app/websocket/handlers.py, app/websocket/router.py: one connection
--   Server             all connections of a process, interleaved: a step relation on the states of
--                      their endpoints, beside HTTP requests that change the tables; Invariant, Steps,
--                      Quiet and Admission hold its lemmas
--   Subscriber         app/events/redis_subscriber.py, and the way of a message to all processes;
--                      Reconnect is its loop over connections
--   RedisManager, Lifespan  app/managers/redis_manager.py, and the start and shutdown in main.py
--   Notifications      app/repositories/notification_repo.py, app/api/v1/endpoints/notifications.py
--   Upload             app/services/upload_service.py, app/api/v1/endpoints/upload.py
--   Api                app/api/v1/endpoints: auth.py, rooms.py, messages.py, users.py; get_db;
--                      Outsiders is about who is refused, NewRoom about a room that is new
--   Routes             the decorators of the endpoints, app/api/v1/router.py, the routes of main.py;
--                      Routes.Starlette is what they rely on
--   Responses          the answers of the endpoints, in app/schemas
--   Schemas            the validation of app/schemas: user.py, room.py and message.py
--   Config             app/core/config.py, app/core/logging.py, app/middleware/rate_limit.py
--   Requests           the HTTP requests as a whole: session, authentication, schema, endpoint
--   Integrity          unique keys and foreign keys: what they promise of all rows, and that all
--                      that happens to a process keeps it; Tables, Parents, Writes and Others are
--                      about tables, Rows to Sockets about the code from repositories to sockets,
--                      Cascades to Gone about deletions, Created about a room that is new
--   Errors             which exceptions leave repositories, services and endpoints
--   Examples           runs of the code, and the theorems at concrete inputs
-- Functions have the names of the code. A state is passed explicitly, an exception is the value
-- `err`, and what was written before a raise stays in the state until `commit` or `rollback`.
--
-- Choices. The text of a UUID is read as `uuid.UUID` reads it; other texts are ASCII where the code
-- lowers their case. Identifiers, times and the defaults of new rows come from outside, as `Fresh`.
-- The session of a connection holds the user that it has loaded until a rollback of a transaction
-- expires it; what is read of it then raises MissingGreenlet. A database that loses its connection
-- and JSON that does not come back as it was sent are not modelled, nor are numbers in a query that
-- a bigint of PostgreSQL cannot hold. Letters and digits of a username are those of ASCII: the code
-- also takes those of other scripts. ORDER BY takes some order of rows with equal keys, on which no
-- result below depends. In WebSocket a coroutine of the endpoint runs to its end without another in
-- between. Where another order matters, Schedule takes every order of critical sections, and Server
-- every order in which the endpoints of a process go on from wait to wait, while time passes; there
-- the handling of one message is one step, and all sessions read one database, since between their
-- steps they have nothing uncommitted; what HTTP requests and other processes write may come
-- between any two steps, but they do not change the presence keys there. Each message of a client
-- has its own `Fresh`.
-- All loops are recursions on the list that they consume: the frames of a client, the sockets of a
-- room, the ids of a request, the connections of the subscriber. The heartbeat is a number of beats.
-- Only the decimal text of a setting in an error message has fuel: 20 digits, far above what is set.
--
-- Not modelled: the pages that FastAPI adds to the routes, the parsing of JSON and the headers of
-- answers, which are FastAPI's; CORS and static files; the reading of the environment, the calls that
-- write the log, and migrations, which have no logic of their own. JSON is a parameter of the
-- subscriber, and the test of an address a parameter of Schemas, the choice of a route a parameter
-- of Routes.
pub mod Prelude
pub mod Dict
pub mod Uuid
pub mod Protocol
pub mod ConnectionManager
pub mod Exec
pub mod Sql
pub mod Redis
pub mod Models
pub mod Backend
pub mod Rooms
pub mod RoomService
pub mod Errors
pub mod Messages
pub mod Chat
pub mod Security
pub mod Users
pub mod Auth
pub mod Examples
pub mod Notifications
pub mod Upload
pub mod Presence
pub mod Handlers
pub mod Responses
pub mod Schemas
pub mod Api
pub mod Routes
pub mod Config
pub mod Requests
pub mod BaseRepository
pub mod Integrity
pub mod WebSocket
pub mod Server
pub mod Subscriber
pub mod RedisManager
pub mod Lifespan
