-- ===== src/ConnectionManager/Broadcast.antt =====
-- What a broadcast sends, and what it leaves in the registry.
use fastapi_realtime_chat.Prelude.{
  ◌≡◌, refl, Bool, false, not, Option, none, some, [], ◌∷◌, map, arith, if◌then◌else◌, ◌==◌, Text,
  text_beq_iff, nat_eq, text_eq, filter,
}
use fastapi_realtime_chat.Dict.{Dict, get, get_or, values}
use fastapi_realtime_chat.Dict.Distinct.{Distinct}
use fastapi_realtime_chat.Protocol.{Socket, Event, send}
use fastapi_realtime_chat.ConnectionManager.{
  ConnectionManager, snapshot, send_all, broadcast_to_room, contains,
}
use fastapi_realtime_chat.ConnectionManager.Laws.{
  rooms-drop_stale, registered, registered-drop_stale,
}
use fastapi_realtime_chat.ConnectionManager.Consistent.{IsConsistent, drop_stale-IsConsistent}

module _ (alive : Socket → Bool) where
  abbrev pub dead : Option Socket → Bool
  dead none = false
  dead (some ws) = not (alive ws)

  abbrev pub keep_alive : Option Socket → Option Socket
  keep_alive none = none
  keep_alive (some ws) = if alive ws then some ws else none

module _ (alive : Socket → Bool) (msg : Event) where
  send_all-sent :
      (sockets : Dict Text Socket)
      → (send_all alive msg sockets).0 ≡ map (λ ws. send ws msg) (filter alive (values sockets))
  unfolding send_all
  send_all-sent [] = refl
  send_all-sent ((u, ws) ∷ sockets) = ground (arith, send_all-sent sockets)

  -- A broadcast sends the message once to every live socket of the room, in the order of the
  -- registry, and to no other socket.
  pub broadcast_sends :
      (r : Text) (m : ConnectionManager)
      → (broadcast_to_room alive r msg m).0
        ≡ map (λ ws. send ws msg) (filter alive (values (get_or [] r m.rooms)))
  unfolding broadcast_to_room snapshot
  broadcast_sends r m = send_all-sent (get_or [] r m.rooms)

  pub contains-stale :
      (u : Text) (sockets : Dict Text Socket)
      → Distinct sockets
      → contains u (send_all alive msg sockets).1 ≡ dead alive (get u sockets)
  unfolding send_all get
  contains-stale u [] h = refl
  contains-stale u ((v, ws) ∷ sockets) h =
      ground (arith, contains-stale u sockets h.1, text_beq_iff v u)

  -- After a broadcast to a consistent registry, a socket of the room is registered exactly if it
  -- was and took the message; the other rooms are as before.
  pub registered-broadcast :
      (r r' u : Text) (m : ConnectionManager)
      → IsConsistent m
      → registered r' u (broadcast_to_room alive r msg m).1
        ≡ (if r == r' then keep_alive alive (registered r' u m) else registered r' u m)
  unfolding broadcast_to_room snapshot registered
  registered-broadcast r r' u m h =
      let sockets = get_or [] r m.rooms in
      ground (
        arith,
        registered-drop_stale r r' u (send_all alive msg sockets).1 m,
        contains-stale u sockets (h.users_distinct r),
        text_beq_iff r r',
      )

  pub rooms-broadcast :
      (r r' : Text) (m : ConnectionManager)
      → (r == r') ≡ false
      → get_or [] r' (broadcast_to_room alive r msg m).1.rooms ≡ get_or [] r' m.rooms
  unfolding broadcast_to_room snapshot
  rooms-broadcast r r' m other =
      rooms-drop_stale r r' (send_all alive msg (get_or [] r m.rooms)).1 m other

  pub broadcast-IsConsistent :
      (r : Text) (m : ConnectionManager)
      → IsConsistent m
      → IsConsistent (broadcast_to_room alive r msg m).1
  unfolding broadcast_to_room snapshot
  broadcast-IsConsistent r m h =
      drop_stale-IsConsistent r (send_all alive msg (get_or [] r m.rooms)).1 m h
