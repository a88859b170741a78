-- ===== src/ConnectionManager/Direct.antt =====
-- What `send_to_user` of app/managers/connection_manager.py sends, and leaves in the registry.
use fastapi_realtime_chat.Prelude.{
  ◌≡◌, refl, inl, inr, Bool, false, ◌&&◌, none, some, List, [], ◌∷◌, map, arith, if◌then◌else◌,
  Bool-cases, Option-cases, ◌==◌, Text, text_beq_iff, nat_eq, text_eq, filter,
}
use fastapi_realtime_chat.Dict.{get_or}
use fastapi_realtime_chat.Protocol.{Socket, Event, send}
use fastapi_realtime_chat.ConnectionManager.{
  ConnectionManager, contains, disconnect, send_rooms, send_to_user,
}
use fastapi_realtime_chat.ConnectionManager.Laws.{registered, joined, registered-disconnect}
use fastapi_realtime_chat.ConnectionManager.Consistent.{IsConsistent, disconnect-IsConsistent}
use fastapi_realtime_chat.ConnectionManager.Broadcast.{keep_alive}

-- The sockets that the registry has for a user in rooms, one for each room.
abbrev pub sockets_in : Text → List Text → ConnectionManager → List Socket
sockets_in u [] m = []
sockets_in u (r ∷ rs) m =
    let rest = sockets_in u rs m in elim (registered r u m) [ none ↦ rest | some ws ↦ ws ∷ rest ]

module _ (alive : Socket → Bool) (u : Text) (msg : Event) where
  registered-send_rooms :
      (rs : List Text) (m : ConnectionManager) (r v : Text)
      → registered r v (send_rooms alive u msg rs m).1 ≡ (
          if u == v && contains r rs then keep_alive alive (registered r v m) else registered r v m)
  unfolding send_rooms registered
  registered-send_rooms [] m r v = ground arith
  registered-send_rooms (x ∷ rs) m r v = elim (Option-cases (registered x u m)) [
    | inl e ↦ ground (arith, registered-send_rooms rs m r v, text_beq_iff x r, text_beq_iff u v)
    | inr (ws, e) ↦ elim (Bool-cases (alive ws)) [
      | inl live ↦
          ground (arith, registered-send_rooms rs m r v, text_beq_iff x r, text_beq_iff u v)
      | inr dead ↦ ground (
        arith,
        registered-send_rooms rs (disconnect x u m) r v,
        registered-disconnect x u r v m,
        text_beq_iff x r,
        text_beq_iff u v,
      )
    ]
  ]

  send_rooms-IsConsistent :
      (rs : List Text) (m : ConnectionManager)
      → IsConsistent m
      → IsConsistent (send_rooms alive u msg rs m).1
  unfolding send_rooms
  send_rooms-IsConsistent [] m h = h
  send_rooms-IsConsistent (x ∷ rs) m h = ground (
    arith,
    send_rooms-IsConsistent rs m h,
    send_rooms-IsConsistent rs (disconnect x u m) (disconnect-IsConsistent x u m h),
  )

  dead_forgotten :
      (x : Text) (ws : Socket) (rs : List Text) (m : ConnectionManager)
      → registered x u m ≡ some ws
      → alive ws ≡ false
      → filter alive (sockets_in u rs (disconnect x u m)) ≡ filter alive (sockets_in u rs m)
  dead_forgotten x ws [] m e dead = refl
  dead_forgotten x ws (y ∷ rs) m e dead =
      ground
        (arith, dead_forgotten x ws rs m e dead, registered-disconnect x u y u m, text_beq_iff x y)

  send_rooms-sent :
      (rs : List Text) (m : ConnectionManager)
      → (send_rooms alive u msg rs m).0 ≡ map (λ ws. send ws msg) (filter alive (sockets_in u rs m))
  unfolding send_rooms registered
  send_rooms-sent [] m = refl
  send_rooms-sent (x ∷ rs) m = elim (Option-cases (registered x u m)) [
    | inl e ↦ ground (arith, send_rooms-sent rs m)
    | inr (ws, e) ↦ elim (Bool-cases (alive ws)) [
      | inl live ↦ ground (arith, send_rooms-sent rs m)
      | inr dead ↦
          ground (arith, send_rooms-sent rs (disconnect x u m), dead_forgotten x ws rs m e dead)
    ]
  ]

  -- In a consistent registry, `send_to_user` sends the message to the live sockets of the user's
  -- rooms, one for each room, and to no other. Afterwards a socket of the user is registered exactly
  -- if it was and took the message, the other users are as before, and the registry is consistent.
  pub send_to_user_lem :
      (m : ConnectionManager)
      → IsConsistent m
      → let (sent, m') = send_to_user alive u msg m in
        (sent ≡ map (λ ws. send ws msg) (filter alive (sockets_in u (get_or [] u m.user_rooms) m)))
        × ((r v : Text)
            → registered r v m'
              ≡ (if u == v then keep_alive alive (registered r v m) else registered r v m))
        × IsConsistent m'
  unfolding send_to_user joined
  send_to_user_lem m h =
      let rooms = get_or [] u m.user_rooms in
      (
        send_rooms-sent rooms m,
        λ r v. ground (arith, registered-send_rooms rooms m r v, h.agree r u, text_beq_iff u v),
        send_rooms-IsConsistent rooms m h,
      )
