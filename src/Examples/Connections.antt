-- ===== src/Examples/Connections.antt =====
-- Registries with a few users, and the theorems about them.
use fastapi_realtime_chat.Prelude.{
  ◌≡◌, refl, Bool, not, none, some, List, [], ◌∷◌, nat_beq, Text, codes, nat_eq, text_eq,
}
use fastapi_realtime_chat.Dict.{get, get_or, pop, modify, put}
use fastapi_realtime_chat.Protocol.{Socket, pong, accept, close}
use fastapi_realtime_chat.ConnectionManager.{
  ConnectionManager, init, connect, snapshot, send_all, broadcast_to_room, room_user_ids,
}
use fastapi_realtime_chat.ConnectionManager.Laws.{registered}
use fastapi_realtime_chat.ConnectionManager.Consistent.{IsConsistent}
use fastapi_realtime_chat.ConnectionManager.Schedule.{
  Section, connects, disconnects, drops, run, updates, view, run-init-IsConsistent, view-run,
  reconnect_dropped,
}

abbrev room : Text
room = codes "r1"

abbrev alice : Text
alice = codes "alice"

abbrev bob : Text
bob = codes "bob"

-- Alice on socket 1 and Bob on socket 2, in one room.
abbrev sections : List Section
sections = connects 1 room alice ∷ connects 2 room bob ∷ []

abbrev two_users : ConnectionManager
two_users = run init sections

two_users_text : two_users ≡ record {
  rooms = (room, (alice, 1) ∷ (bob, 2) ∷ []) ∷ [];
  user_rooms = (alice, room ∷ []) ∷ (bob, room ∷ []) ∷ [];
}
unfolding run connect modify get_or get put
two_users_text = refl

-- Alice connects again: her first socket is closed.
connect_again : (connect 3 room alice two_users).0 ≡ accept 3 ∷ close 1 4000 ∷ []
unfolding run connect modify get_or get put
connect_again = refl

abbrev not_two : Socket → Bool
not_two ws = not (nat_beq ws 2)

-- Bob's socket fails; the room keeps Alice alone.
broadcast_run : room_user_ids room (broadcast_to_room not_two room pong two_users).1 ≡ alice ∷ []
unfolding run connect modify get_or get put pop broadcast_to_room room_user_ids
broadcast_run = refl

run-init-IsConsistent_example : IsConsistent two_users
run-init-IsConsistent_example = run-init-IsConsistent sections

view-run_example :
    view (run two_users (disconnects room bob ∷ []))
    ≡ updates (view two_users) (disconnects room bob ∷ [])
view-run_example = view-run two_users (disconnects room bob ∷ [])

bob-registered : registered room bob two_users ≡ some 2
unfolding registered run connect modify get_or get put
bob-registered = refl

reconnect_dropped_example :
    registered room bob (
      run two_users
        (connects 5 room bob ∷ drops room (send_all not_two pong (snapshot room two_users)).1 ∷ []))
    ≡ none
reconnect_dropped_example =
    reconnect_dropped not_two pong room bob 2 5 two_users (run-init-IsConsistent sections)
      bob-registered refl refl
