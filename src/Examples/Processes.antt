-- ===== src/Examples/Processes.antt =====
-- A process that loses its connection to Redis and shuts down, a registry, and who is online.
use fastapi_realtime_chat.Prelude.{
  ◌≡◌, refl, Bool, not, Option, none, some, List, [], ◌∷◌, ◌++◌, map, arith, nat_beq, if◌then◌else◌,
  ◌==◌, Text, codes, nat_eq, text_eq, filter, any, count,
}
use fastapi_realtime_chat.Dict.{get_or}
use fastapi_realtime_chat.Exec.{ok}
use fastapi_realtime_chat.Protocol.{Socket, Event, pong, send}
use fastapi_realtime_chat.Presence.{OnlineUser, default_ttl, set_online, get_online_users}
use fastapi_realtime_chat.Presence.Heartbeat.{wait, beats}
use fastapi_realtime_chat.Presence.Online.{is_user, listed_until}
use fastapi_realtime_chat.ConnectionManager.{ConnectionManager, init, connect, send_to_user}
use fastapi_realtime_chat.ConnectionManager.Laws.{registered}
use fastapi_realtime_chat.ConnectionManager.Consistent.{
  IsConsistent, init-IsConsistent, connect-IsConsistent,
}
use fastapi_realtime_chat.ConnectionManager.Broadcast.{keep_alive}
use fastapi_realtime_chat.ConnectionManager.Direct.{sockets_in, send_to_user_lem}
use fastapi_realtime_chat.Subscriber.{Received, listen}
use fastapi_realtime_chat.Subscriber.Reconnect.{
  lost, cancelled, Attempt, Bridge, is_cancelled, heard, run_subscriber, run_subscriber_lem,
}
use fastapi_realtime_chat.Lifespan.{
  Application, Activity, takes_client, opens, receives, closes, live, startup, lifespan,
}
use fastapi_realtime_chat.Lifespan.Closed.{OnlyTwo, lifespan_closes}
use fastapi_realtime_chat.Examples.World.{world}

abbrev not_two : Socket → Bool
not_two ws = not (nat_beq ws 2)

abbrev loads : Text → Option Event
loads raw = if raw == codes "{}" then some pong else none

abbrev one_room : ConnectionManager
one_room = (connect 5 (codes "r") (codes "u") init).1

one_room-IsConsistent : IsConsistent one_room
one_room-IsConsistent = connect-IsConsistent 5 (codes "r") (codes "u") init init-IsConsistent

abbrev received : Received
received = record { type = codes "pmessage"; channel = codes "channel:room:r"; raw = codes "{}" }

-- One message, a lost connection, another message, and the cancellation.
abbrev attempts : List Attempt
attempts =
    record { messages = received ∷ []; ending = lost }
    ∷ record { messages = received ∷ []; ending = cancelled }
    ∷ []

abbrev bridge : Bridge
bridge = record {
  clients = record { made = 0; unclosed = [] };
  manager = one_room;
  outputs = [];
  paused = 0;
}

run_subscriber_lem_example :
    let (runs, s') = run_subscriber not_two loads attempts bridge in
    let (sent, m) = listen not_two loads (heard attempts) one_room in
    (runs ≡ not (any (λ a. is_cancelled a.ending) attempts))
    × (s'.outputs ≡ [] ++ sent)
    × (s'.manager ≡ m)
    × (s'.clients.unclosed ≡ [])
run_subscriber_lem_example = run_subscriber_lem not_two loads attempts bridge tt

abbrev begun : Application
begun = record { redis = none; bridge = bridge; subscriber = none; directories = [] }

-- The subscriber loses its connection once; the services ask for their client in between.
abbrev activities : List Activity
activities = opens ∷ takes_client ∷ receives received ∷ closes lost ∷ opens ∷ takes_client ∷ []

lifespan_closes_example :
    let living = live not_two loads activities (startup (codes "uploads/images") begun) in
    let over = lifespan not_two loads (codes "uploads/images") activities begun in
    OnlyTwo living.bridge.clients.unclosed living.subscriber living.redis
    × (over.bridge.clients.unclosed ≡ [])
    × (over.redis ≡ none)
lifespan_closes_example =
    lifespan_closes not_two loads (codes "uploads/images") activities begun refl refl refl

send_to_user_lem_example :
    let (sent, m') = send_to_user not_two (codes "u") pong one_room in
    (sent
      ≡ map
          (λ ws. send ws pong)
          (filter not_two
            (sockets_in (codes "u") (get_or [] (codes "u") one_room.user_rooms) one_room)))
    × ((r v : Text)
        → registered r v m' ≡ (
            if codes "u" == v
            then keep_alive not_two (registered r v one_room)
            else registered r v one_room))
    × IsConsistent m'
send_to_user_lem_example = send_to_user_lem not_two (codes "u") pong one_room one_room-IsConsistent

listed_until_example :
    (us : List OnlineUser) × ((get_online_users (
        wait 10 (
          beats default_ttl
            (codes "a")
            (codes "alice")
            60
            2
            (set_online default_ttl (codes "a") (codes "alice") world).1))).0
      ≡ ok us)
    × (count (is_user (codes "a") (codes "alice")) us ≡ 1)
listed_until_example =
    listed_until default_ttl (codes "a") (codes "alice") (codes "alice") 60 2 10 world (omega arith)
      refl refl
