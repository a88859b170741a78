-- ===== src/Routes/Reached.antt =====
-- Which endpoint a request reaches, by the table of routes.
use fastapi_realtime_chat.Prelude.{
  ◌≡◌, refl, ◌∙◌, false, Option, none, some, List, [], ◌∷◌, arith, if◌then◌else◌, ◌==◌, Text, codes,
  nat_eq, text_eq,
}
use fastapi_realtime_chat.Routes
use fastapi_realtime_chat.Routes.{
  Scope, http_get, http_post, websocket, Segment, literal, param, Endpoint, Route, api_router,
  routes,
}
use fastapi_realtime_chat.Routes.Starlette.{Starlette, same_scope, push, first}

-- The requests of the clients: those that the README lists, and the two of main.py.
abbrev pub scope_of : Endpoint → Scope
scope_of Routes.register = http_post
scope_of Routes.login = http_post
scope_of Routes.refresh = http_post
scope_of Routes.get_me = http_get
scope_of Routes.get_online = http_get
scope_of Routes.create_room = http_post
scope_of Routes.list_rooms = http_get
scope_of Routes.my_rooms = http_get
scope_of Routes.get_room = http_get
scope_of Routes.join_room = http_post
scope_of Routes.leave_room = http_post
scope_of Routes.get_messages = http_get
scope_of Routes.mark_read = http_post
scope_of Routes.get_notifications = http_get
scope_of Routes.unread_count = http_get
scope_of Routes.mark_all_read = http_post
scope_of Routes.upload_image = http_post
scope_of Routes.websocket_chat = websocket
scope_of Routes.health = http_get
scope_of Routes.root = http_get

abbrev v1 : List Text → List Text
v1 path = codes "api" ∷ codes "v1" ∷ path

abbrev pub url : Endpoint → (room_id : Text) → List Text
url Routes.register r = v1 (codes "auth" ∷ codes "register" ∷ [])
url Routes.login r = v1 (codes "auth" ∷ codes "login" ∷ [])
url Routes.refresh r = v1 (codes "auth" ∷ codes "refresh" ∷ [])
url Routes.get_me r = v1 (codes "users" ∷ codes "me" ∷ [])
url Routes.get_online r = v1 (codes "users" ∷ codes "online" ∷ [])
url Routes.create_room r = v1 (codes "rooms" ∷ [])
url Routes.list_rooms r = v1 (codes "rooms" ∷ [])
url Routes.my_rooms r = v1 (codes "rooms" ∷ codes "me" ∷ [])
url Routes.get_room r = v1 (codes "rooms" ∷ r ∷ [])
url Routes.join_room r = v1 (codes "rooms" ∷ r ∷ codes "join" ∷ [])
url Routes.leave_room r = v1 (codes "rooms" ∷ r ∷ codes "leave" ∷ [])
url Routes.get_messages r = v1 (codes "messages" ∷ r ∷ [])
url Routes.mark_read r = v1 (codes "messages" ∷ r ∷ codes "read" ∷ [])
url Routes.get_notifications r = v1 (codes "notifications" ∷ [])
url Routes.unread_count r = v1 (codes "notifications" ∷ codes "unread-count" ∷ [])
url Routes.mark_all_read r = v1 (codes "notifications" ∷ codes "read-all" ∷ [])
url Routes.upload_image r = v1 (codes "upload" ∷ codes "image" ∷ [])
url Routes.websocket_chat r = codes "ws" ∷ codes "chat" ∷ r ∷ []
url Routes.health r = codes "health" ∷ []
url Routes.root r = [] ∷ []

-- The room of a path, where it names one.
abbrev pub arguments : Endpoint → (room_id : Text) → List Text
arguments Routes.get_room r = r ∷ []
arguments Routes.join_room r = r ∷ []
arguments Routes.leave_room r = r ∷ []
arguments Routes.get_messages r = r ∷ []
arguments Routes.mark_read r = r ∷ []
arguments Routes.websocket_chat r = r ∷ []
arguments e r = []

-- What the laws of Starlette leave of it, computed.
abbrev fits : List Segment → List Text → Option (List Text)
fits [] [] = some []
fits [] (s ∷ ss) = none
fits (a ∷ p) [] = none
fits (literal a ∷ p) (s ∷ ss) = if s == a then fits p ss else none
fits (param ∷ p) (s ∷ ss) = if s == [] then none else push s (fits p ss)

abbrev dispatch : List Route → Scope → List Text → Option (Endpoint × List Text)
dispatch [] scope ss = none
dispatch (r ∷ rs) scope ss =
    first r.endpoint (if same_scope r.scope scope then fits r.path ss else none)
      (dispatch rs scope ss)

-- The table decides every request of the list for a room that is not called `me`.
dispatched :
    (e : Endpoint) (r : Text)
    → (r == []) ≡ false
    → (r == codes "me") ≡ false
    → dispatch routes (scope_of e) (url e r) ≡ some (e, arguments e r)
unfolding routes api_router
dispatched e r full other = ground arith

abbrev pub first_match : Starlette
first_match = record {
  matches = fits;
  route = dispatch;
  matches-end = refl;
  matches-longer = λ s ss. refl;
  matches-shorter = λ a p. refl;
  matches-literal = λ a s p ss. refl;
  matches-param = λ s p ss. refl;
  route-none = λ scope ss. refl;
  route-next = λ r rs scope ss. refl;
}

module _ (starlette : Starlette) where
  matches-fits : (p : List Segment) (ss : List Text) → starlette.matches p ss ≡ fits p ss
  matches-fits [] [] = starlette.matches-end
  matches-fits [] (s ∷ ss) = starlette.matches-longer s ss
  matches-fits (a ∷ p) [] = starlette.matches-shorter a p
  matches-fits (literal a ∷ p) (s ∷ ss) =
      ground (arith, starlette.matches-literal a s p ss, matches-fits p ss)
  matches-fits (param ∷ p) (s ∷ ss) =
      ground (arith, starlette.matches-param s p ss, matches-fits p ss)

  route-dispatch :
      (rs : List Route) (scope : Scope) (ss : List Text)
      → starlette.route rs scope ss ≡ dispatch rs scope ss
  route-dispatch [] scope ss = starlette.route-none scope ss
  route-dispatch (r ∷ rs) scope ss =
      starlette.route-next r rs scope ss
      ∙ ground (arith, matches-fits r.path ss, route-dispatch rs scope ss)

  -- Each of the requests `url` reaches its endpoint, with the room of its path, if it has one, as
  -- the argument, whatever routes stand before it in the table; the room is any text that is not
  -- empty and is not `me`.
  pub route-url :
      (e : Endpoint) (r : Text)
      → (r == []) ≡ false
      → (r == codes "me") ≡ false
      → starlette.route routes (scope_of e) (url e r) ≡ some (e, arguments e r)
  route-url e r full other =
      route-dispatch routes (scope_of e) (url e r) ∙ dispatched e r full other
