-- ===== src/Routes/Starlette.antt =====
-- What main.py relies on of Starlette: routes are tried in their order, the first that fits a
-- request takes it, a parameter of a path stands for one segment that is not empty.
use fastapi_realtime_chat.Prelude.{
  ◌≡◌, Bool, true, false, Option, none, some, List, [], ◌∷◌, if◌then◌else◌, ◌==◌, Text, nat_eq,
  text_eq,
}
use fastapi_realtime_chat.Routes.{
  Scope, http_get, http_post, websocket, Segment, literal, param, Endpoint, Route,
}

abbrev pub same_scope : Scope → Scope → Bool
same_scope http_get http_get = true
same_scope http_post http_post = true
same_scope websocket websocket = true
same_scope s t = false

-- The arguments of a path with one more in front.
abbrev pub push : Text → Option (List Text) → Option (List Text)
push v none = none
push v (some vs) = some (v ∷ vs)

-- The first of two answers.
abbrev pub first :
    Endpoint → Option (List Text) → Option (Endpoint × List Text) → Option (Endpoint × List Text)
first e none later = later
first e (some vs) later = some (e, vs)

pub record Starlette : Type 0 where
  -- The texts that the parameters of a path stand for, if it fits.
  pub matches : List Segment → List Text → Option (List Text)
  -- The endpoint of a request, with its arguments; `none` is an answer with 404, 405 or a redirect.
  pub route : List Route → Scope → List Text → Option (Endpoint × List Text)
  pub matches-end : matches [] [] ≡ some []
  pub matches-longer : (s : Text) (ss : List Text) → matches [] (s ∷ ss) ≡ none
  pub matches-shorter : (a : Segment) (p : List Segment) → matches (a ∷ p) [] ≡ none
  pub matches-literal :
      (a s : Text) (p : List Segment) (ss : List Text)
      → matches (literal a ∷ p) (s ∷ ss) ≡ (if s == a then matches p ss else none)
  pub matches-param :
      (s : Text) (p : List Segment) (ss : List Text)
      → matches (param ∷ p) (s ∷ ss) ≡ (if s == [] then none else push s (matches p ss))
  pub route-none : (scope : Scope) (ss : List Text) → route [] scope ss ≡ none
  pub route-next :
      (r : Route) (rs : List Route) (scope : Scope) (ss : List Text)
      → route (r ∷ rs) scope ss
        ≡ first r.endpoint
            (if same_scope r.scope scope then matches r.path ss else none)
            (route rs scope ss)
