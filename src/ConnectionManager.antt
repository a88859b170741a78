-- ===== src/ConnectionManager.antt =====
-- app/managers/connection_manager.py: the registry of the sockets of one process. Each critical
-- section of the lock is a function on the registry; the calls on sockets are outputs.
pub mod Laws
pub mod Consistent
pub mod Broadcast
pub mod Schedule
pub mod Total
pub mod Direct
use fastapi_realtime_chat.Prelude.{
  ℕ, ◌+◌, Bool, true, false, not, Option, none, some, List, [], ◌∷◌, ◌++◌, if◌then◌else◌, ◌==◌,
  Text, nat_eq, text_eq, length, filter, any,
}
use fastapi_realtime_chat.Dict.{Dict, get, get_or, pop, modify, put, keys, values}
use fastapi_realtime_chat.Protocol.{Socket, Event, Output, accept, close, send}

pub record ConnectionManager : Type 0 where
  pub rooms : Dict Text (Dict Text Socket)
  pub user_rooms : Dict Text (List Text)

abbrev pub init : ConnectionManager
init = record { rooms = []; user_rooms = [] }

-- A Python `set`, in the order of entry.
abbrev pub contains : Text → List Text → Bool
contains x xs = any (λ y. y == x) xs

unfoldable pub add : Text → List Text → List Text
add x xs = if contains x xs then xs else xs ++ x ∷ []

unfoldable pub discard : Text → List Text → List Text
discard x xs = filter (λ y. not (y == x)) xs

abbrev pub close_existing : Option Socket → List Output
close_existing none = []
close_existing (some existing) = close existing 4000 ∷ []

-- `connect`: the outputs, and the registry after the critical section.
unfoldable pub connect : Socket → Text → Text → ConnectionManager → List Output × ConnectionManager
unfolding add
connect websocket room_id user_id m =
    let rooms = modify [] room_id (λ r. r) m.rooms in
    let existing = get user_id (get_or [] room_id rooms) in
    (
      accept websocket ∷ close_existing existing,
      record {
        rooms = modify [] room_id (put user_id websocket) rooms;
        user_rooms = modify [] user_id (add room_id) m.user_rooms;
      },
    )

-- `if not d[k]: del d[k]`
unfoldable pub drop_empty {ℓ} : {A : Type ℓ} → Text → Dict Text (List A) → Dict Text (List A)
drop_empty k d = elim (get_or [] k d) [ [] ↦ pop k d | x ∷ xs ↦ d ]

unfoldable pub disconnect : Text → Text → ConnectionManager → ConnectionManager
unfolding discard drop_empty
disconnect room_id user_id m = record {
  rooms = drop_empty room_id (modify [] room_id (pop user_id) m.rooms);
  user_rooms = drop_empty user_id (modify [] user_id (discard room_id) m.user_rooms);
}

-- `broadcast_to_room`, the copy made under the lock.
unfoldable pub snapshot : Text → ConnectionManager → Dict Text Socket
snapshot room_id m = get_or [] room_id m.rooms

-- The loop that sends: the sends that succeed, and the users whose send raises.
unfoldable pub send_all : (Socket → Bool) → Event → Dict Text Socket → List Output × List Text
send_all alive message [] = ([], [])
send_all alive message ((uid, ws) ∷ sockets) =
    let (sent, stale) = send_all alive message sockets in
    if alive ws then (send ws message ∷ sent, stale) else (sent, uid ∷ stale)

-- The second critical section, for one stale user and for all.
unfoldable pub drop_user : Text → Text → ConnectionManager → ConnectionManager
unfolding discard
drop_user room_id uid m = record {
  rooms = modify [] room_id (pop uid) m.rooms;
  user_rooms = modify [] uid (discard room_id) m.user_rooms;
}

unfoldable pub drop_stale : Text → List Text → ConnectionManager → ConnectionManager
unfolding drop_user
drop_stale room_id [] m = m
drop_stale room_id (uid ∷ stale) m = drop_stale room_id stale (drop_user room_id uid m)

-- `broadcast_to_room` with no other task between its critical sections. `alive` says which sockets
-- accept the message.
unfoldable pub broadcast_to_room :
    (Socket → Bool) → Text → Event → ConnectionManager → List Output × ConnectionManager
unfolding snapshot send_all drop_stale
broadcast_to_room alive room_id message m =
    let (sent, stale) = send_all alive message (snapshot room_id m) in
    (sent, drop_stale room_id stale m)

-- The loop of `send_to_user` over the copied room ids.
unfoldable pub send_rooms :
    (Socket → Bool) → Text → Event → List Text → ConnectionManager → List Output × ConnectionManager
unfolding disconnect
send_rooms alive user_id message [] m = ([], m)
send_rooms alive user_id message (room_id ∷ room_ids) m =
    elim (get user_id (get_or [] room_id m.rooms)) [
      | none ↦ send_rooms alive user_id message room_ids m
      | some ws ↦ elim (alive ws) [
        | true ↦
            let (sent, m') = send_rooms alive user_id message room_ids m in
            (send ws message ∷ sent, m')
        | false ↦ send_rooms alive user_id message room_ids (disconnect room_id user_id m)
      ]
    ]

unfoldable pub send_to_user :
    (Socket → Bool) → Text → Event → ConnectionManager → List Output × ConnectionManager
unfolding send_rooms
send_to_user alive user_id message m =
    send_rooms alive user_id message (get_or [] user_id m.user_rooms) m

unfoldable pub is_connected : Text → ConnectionManager → Bool
is_connected user_id m = elim (get_or [] user_id m.user_rooms) [ [] ↦ false | x ∷ xs ↦ true ]

unfoldable pub room_user_ids : Text → ConnectionManager → List Text
room_user_ids room_id m = keys (get_or [] room_id m.rooms)

unfoldable pub sum_lengths : List (Dict Text Socket) → ℕ
sum_lengths [] = 0
sum_lengths (users ∷ rest) = length users + sum_lengths rest

unfoldable pub total_connections : ConnectionManager → ℕ
unfolding sum_lengths
total_connections m = sum_lengths (values m.rooms)
