-- ===== src/Routes.antt =====
-- The table of routes: the decorators of app/api/v1/endpoints, app/websocket/router.py and main.py,
-- put together by app/api/v1/router.py and main.py. A path is split at its slashes.
pub mod Starlette
pub mod Reached
use fastapi_realtime_chat.Prelude.{List, [], ◌∷◌, ◌++◌, Text, codes, nat_eq, text_eq}

pub data Scope : Type 0 where
  http_get http_post websocket : Scope

pub data Segment : Type 0 where
  literal : Text → Segment
  -- `{room_id}`
  param : Segment

pub data Endpoint : Type 0 where
  register login refresh : Endpoint
  get_me get_online : Endpoint
  create_room list_rooms my_rooms get_room join_room leave_room : Endpoint
  get_messages mark_read : Endpoint
  get_notifications unread_count mark_all_read : Endpoint
  upload_image : Endpoint
  websocket_chat : Endpoint
  health root : Endpoint

pub record Route : Type 0 where
  pub scope : Scope
  pub path : List Segment
  pub endpoint : Endpoint

-- `APIRouter(prefix="/…")`, at the routes that it includes.
abbrev pub with_prefix : Text → List Route → List Route
with_prefix p [] = []
with_prefix p (r ∷ rs) = record r { path = literal p ∷ r.path } ∷ with_prefix p rs

abbrev at : Scope → List Segment → Endpoint → Route
at scope path endpoint = record { scope = scope; path = path; endpoint = endpoint }

abbrev register_route : Route
register_route = at http_post (literal (codes "register") ∷ []) register

abbrev login_route : Route
login_route = at http_post (literal (codes "login") ∷ []) login

abbrev refresh_route : Route
refresh_route = at http_post (literal (codes "refresh") ∷ []) refresh

abbrev get_me_route : Route
get_me_route = at http_get (literal (codes "me") ∷ []) get_me

abbrev get_online_route : Route
get_online_route = at http_get (literal (codes "online") ∷ []) get_online

abbrev create_room_route : Route
create_room_route = at http_post [] create_room

abbrev list_rooms_route : Route
list_rooms_route = at http_get [] list_rooms

abbrev my_rooms_route : Route
my_rooms_route = at http_get (literal (codes "me") ∷ []) my_rooms

abbrev get_room_route : Route
get_room_route = at http_get (param ∷ []) get_room

abbrev join_room_route : Route
join_room_route = at http_post (param ∷ literal (codes "join") ∷ []) join_room

abbrev leave_room_route : Route
leave_room_route = at http_post (param ∷ literal (codes "leave") ∷ []) leave_room

abbrev get_messages_route : Route
get_messages_route = at http_get (param ∷ []) get_messages

abbrev mark_read_route : Route
mark_read_route = at http_post (param ∷ literal (codes "read") ∷ []) mark_read

abbrev get_notifications_route : Route
get_notifications_route = at http_get [] get_notifications

abbrev unread_count_route : Route
unread_count_route = at http_get (literal (codes "unread-count") ∷ []) unread_count

abbrev mark_all_read_route : Route
mark_all_read_route = at http_post (literal (codes "read-all") ∷ []) mark_all_read

abbrev upload_image_route : Route
upload_image_route = at http_post (literal (codes "image") ∷ []) upload_image

abbrev websocket_chat_route : Route
websocket_chat_route =
    at websocket (literal (codes "ws") ∷ literal (codes "chat") ∷ param ∷ []) websocket_chat

abbrev health_route : Route
health_route = at http_get (literal (codes "health") ∷ []) health

abbrev root_route : Route
root_route = at http_get (literal [] ∷ []) root

-- The routers of the modules, in the order of their decorators.
abbrev auth_router : List Route
auth_router = with_prefix (codes "auth") (register_route ∷ login_route ∷ refresh_route ∷ [])

abbrev users_router : List Route
users_router = with_prefix (codes "users") (get_me_route ∷ get_online_route ∷ [])

abbrev pub rooms_router : List Route
rooms_router = with_prefix (codes "rooms") (
    create_room_route ∷ list_rooms_route ∷ my_rooms_route ∷ get_room_route ∷ join_room_route
    ∷ leave_room_route ∷ [])

abbrev messages_router : List Route
messages_router = with_prefix (codes "messages") (get_messages_route ∷ mark_read_route ∷ [])

abbrev notifications_router : List Route
notifications_router =
    with_prefix (codes "notifications")
      (get_notifications_route ∷ unread_count_route ∷ mark_all_read_route ∷ [])

abbrev upload_router : List Route
upload_router = with_prefix (codes "upload") (upload_image_route ∷ [])

unfoldable pub api_router : List Route
api_router = with_prefix (codes "api") (
    with_prefix (codes "v1") (
      auth_router
      ++ (users_router
          ++ (rooms_router ++ (messages_router ++ (notifications_router ++ upload_router))))))

unfoldable pub routes : List Route
routes = api_router ++ (websocket_chat_route ∷ health_route ∷ root_route ∷ [])
