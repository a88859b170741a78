-- ===== src/Subscriber/FanOut.antt =====
-- Which sockets app/events/redis_subscriber.py sends a published event to.
use fastapi_realtime_chat.Prelude.{
  ◌≡◌, refl, inl, inr, Bool, true, false, not, ◌&&◌, ◌++◌, text_beq_iff, Option, none, some, List,
  [], ◌∷◌, map, arith, if◌then◌else◌, Option-cases, Text, nat_eq, text_eq, strip_prefix, filter,
}
use fastapi_realtime_chat.Dict.{Dict, get, get_or, keys, values}
use fastapi_realtime_chat.Dict.Distinct.{Distinct}
use fastapi_realtime_chat.Uuid
use fastapi_realtime_chat.Protocol.{Socket, Event, Output, send}
use fastapi_realtime_chat.Chat.{room_channel}
use fastapi_realtime_chat.Presence.{presence_channel, typing_channel}
use fastapi_realtime_chat.ConnectionManager.{ConnectionManager, contains, broadcast_to_room}
use fastapi_realtime_chat.ConnectionManager.Laws.{registered}
use fastapi_realtime_chat.ConnectionManager.Consistent.{IsConsistent}
use fastapi_realtime_chat.ConnectionManager.Broadcast.{
  keep_alive, broadcast_sends, registered-broadcast, rooms-broadcast, broadcast-IsConsistent,
}
use fastapi_realtime_chat.Subscriber.{broadcast_rooms, handle_message}

contains-keys :
    (r : Text) (d : Dict Text (Dict Text Socket)) → contains r (keys d) ≡ false → get_or [] r d ≡ []
unfolding get_or get
contains-keys r [] h = refl
contains-keys r ((k, v) ∷ d) h = ground (arith, contains-keys r d)

-- Whether no text of a list stands again behind it.
abbrev no_repeats : List Text → Bool
no_repeats [] = true
no_repeats (r ∷ rs) = not (contains r rs) && no_repeats rs

get-keys :
    (r : Text) (d : Dict Text (Dict Text Socket)) → get r d ≡ none → contains r (keys d) ≡ false
unfolding get
get-keys r [] h = refl
get-keys r ((k, v) ∷ d) h = ground (arith, get-keys r d)

Distinct-keys : (d : Dict Text (Dict Text Socket)) → Distinct d → no_repeats (keys d) ≡ true
Distinct-keys [] h = refl
Distinct-keys ((k, v) ∷ d) h = ground (arith, get-keys k d h.0, Distinct-keys d h.1)

module _ (alive : Socket → Bool) where
  -- An event for each live socket of each of the rooms, as a registry has them.
  abbrev pub to_rooms : Event → List Text → ConnectionManager → List Output
  to_rooms event [] m = []
  to_rooms event (r ∷ rs) m =
      map (λ ws. send ws event) (filter alive (values (get_or [] r m.rooms))) ++ to_rooms event rs m

  to_rooms-broadcast :
      (event : Event) (r : Text) (rs : List Text) (m : ConnectionManager)
      → contains r rs ≡ false
      → to_rooms event rs (broadcast_to_room alive r event m).1 ≡ to_rooms event rs m
  to_rooms-broadcast event r [] m h = refl
  to_rooms-broadcast event r (r' ∷ rs) m h = ground (
    arith,
    rooms-broadcast alive event r r' m (ground (arith, text_beq_iff r r', text_beq_iff r' r)),
    to_rooms-broadcast event r rs m (ground arith),
  )

  broadcast_rooms-sends :
      (event : Event) (rs : List Text) (m : ConnectionManager)
      → no_repeats rs ≡ true
      → (broadcast_rooms alive event rs m).0 ≡ to_rooms event rs m
  unfolding broadcast_rooms
  broadcast_rooms-sends event [] m h = refl
  broadcast_rooms-sends event (r ∷ rs) m h = ground (
    arith,
    broadcast_sends alive event r m,
    broadcast_rooms-sends event rs (broadcast_to_room alive r event m).1,
    to_rooms-broadcast event r rs m,
  )

  keep_alive_twice :
      (o : Option Socket) → keep_alive alive (keep_alive alive o) ≡ keep_alive alive o
  keep_alive_twice o = ground arith

  registered-broadcast_rooms :
      (event : Event) (ids : List Text) (m : ConnectionManager)
      → IsConsistent m
      → (r u : Text)
      → registered r u (broadcast_rooms alive event ids m).1
        ≡ (if contains r ids then keep_alive alive (registered r u m) else registered r u m)
  unfolding broadcast_rooms
  registered-broadcast_rooms event [] m h r u = refl
  registered-broadcast_rooms event (id ∷ ids) m h r u =
      let m' = (broadcast_to_room alive id event m).1 in
      ground (
        arith,
        registered-broadcast_rooms event ids m' (broadcast-IsConsistent alive event id m h) r u,
        registered-broadcast alive event id r u m h,
        keep_alive_twice (registered r u m),
      )

  module _ (loads : Text → Option Event) where
    -- What is published on the channel of a room, by the chat service or by the typing service,
    -- is sent to the live sockets that a process has registered under the text of the channel, once
    -- each and to no other; data that is no JSON is sent to none.
    pub room_fan_out :
        (room raw : Text) (m : ConnectionManager)
        → let sent : Option Event → List Output = λ event. elim event [
          | none ↦ []
          | some e ↦ map (λ ws. send ws e) (filter alive (values (get_or [] room m.rooms)))
        ] in
          ((handle_message alive loads (room_channel room) raw m).0 ≡ sent (loads raw))
          × ((handle_message alive loads (typing_channel room) raw m).0 ≡ sent (loads raw))
    unfolding handle_message strip_prefix
    room_fan_out room raw m = elim (Option-cases (loads raw)) [
      | inl e ↦ (ground arith, ground arith)
      | inr (event, e) ↦ (
        ground (arith, broadcast_sends alive event room m),
        ground (arith, broadcast_sends alive event room m),
      )
    ]

    -- A presence event, in a process whose registry is consistent, is sent once to every live socket
    -- of every room of the registry and to no other; afterwards a socket is registered exactly if it
    -- was and took the event.
    pub presence_fan_out :
        (raw : Text) (event : Event) (m : ConnectionManager)
        → loads raw ≡ some event
        → IsConsistent m
        → let (sent, m') = handle_message alive loads presence_channel raw m in
          (sent ≡ to_rooms event (keys m.rooms) m)
          × ((r u : Text) → registered r u m' ≡ keep_alive alive (registered r u m))
    unfolding handle_message strip_prefix registered get
    presence_fan_out raw event m e h = (
      ground (
        arith,
        broadcast_rooms-sends event (keys m.rooms) m (Distinct-keys m.rooms h.rooms_distinct),
      ),
      λ r u.
          ground (
            arith,
            registered-broadcast_rooms event (keys m.rooms) m h r u,
            contains-keys r m.rooms,
          ),
    )
