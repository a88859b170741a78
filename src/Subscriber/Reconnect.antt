-- ===== src/Subscriber/Reconnect.antt =====
-- The loop of `run_subscriber` in app/events/redis_subscriber.py, which connects again.
use fastapi_realtime_chat.Prelude.{
  ℕ, ◌+◌, ◌≡◌, refl, sym, ap, ◌∙◌, Bool, true, false, not, Option, List, [], ◌∷◌, ◌++◌, arith,
  if◌then◌else◌, Text, nat_eq, text_eq, any,
}
use mathlib.Core.List.{append-nil, append_assoc}
use fastapi_realtime_chat.Protocol.{Socket, Event, Output}
use fastapi_realtime_chat.ConnectionManager.{ConnectionManager}
use fastapi_realtime_chat.RedisManager.{Clients, from_url, aclose}
use fastapi_realtime_chat.RedisManager.Closing.{AreMade, AreMade-suc, aclose-from_url}
use fastapi_realtime_chat.Subscriber.{Received, receive, listen}

-- How one turn of the loop ends: Redis cannot be reached or the connection is lost, `listen` has no
-- more messages, the task is cancelled, or it is cancelled in the pause after a lost connection.
pub data Ending : Type 0 where
  lost finished cancelled cancelled_in_pause : Ending

pub record Attempt : Type 0 where
  pub messages : List Received
  pub ending : Ending

pub record Bridge : Type 0 where
  pub clients : Clients
  pub manager : ConnectionManager
  pub outputs : List Output
  -- The seconds that the task has slept.
  pub paused : ℕ

abbrev pub goes_on : Ending → Bool
goes_on lost = true
goes_on finished = true
goes_on cancelled = false
goes_on cancelled_in_pause = false

-- `await asyncio.sleep(2)` in `except Exception`.
abbrev pub pause : Ending → ℕ
pause lost = 2
pause finished = 0
pause cancelled = 0
pause cancelled_in_pause = 0

-- Whether a `CancelledError` ends the turn.
abbrev pub is_cancelled : Ending → Bool
is_cancelled lost = false
is_cancelled finished = false
is_cancelled cancelled = true
is_cancelled cancelled_in_pause = true

-- What is received until the task is cancelled, over all connections.
abbrev pub heard : List Attempt → List Received
heard [] = []
heard (a ∷ attempts) =
    let rest = heard attempts in if is_cancelled a.ending then a.messages else a.messages ++ rest

-- The start and the end of a turn of the loop.
abbrev pub open_client : Bridge → ℕ × Bridge
open_client s = let (r, clients) = from_url s.clients in (r, record s { clients = clients })

abbrev pub close_client : ℕ → Ending → Bridge → Bridge
close_client r ending s = record s {
  clients = aclose r s.clients;
  paused = s.paused + pause ending;
}

module _ (alive : Socket → Bool) (loads : Text → Option Event) where
  -- The task on what it receives, while its client is open.
  abbrev pub hear : List Received → Bridge → Bridge
  hear messages s =
      let (sent, m) = listen alive loads messages s.manager in
      record s { manager = m; outputs = s.outputs ++ sent }

  -- One turn: the task makes a client, listens on it, and closes it in `finally`.
  unfoldable pub connect_once : Attempt → Bridge → Bridge
  connect_once a s = let (r, s') = open_client s in close_client r a.ending (hear a.messages s')

  -- Whether the task still runs, and what it leaves.
  unfoldable pub run_subscriber : List Attempt → Bridge → Bool × Bridge
  run_subscriber [] s = (true, s)
  run_subscriber (a ∷ attempts) s =
      let s' = connect_once a s in
      let rest = run_subscriber attempts s' in if goes_on a.ending then rest else (false, s')

  listen-append :
      (a b : List Received) (m : ConnectionManager)
      → let first = listen alive loads a m in
        let second = listen alive loads b first.1 in
        listen alive loads (a ++ b) m ≡ (first.0 ++ second.0, second.1)
  unfolding listen
  listen-append [] b m = refl
  listen-append (x ∷ a) b m =
      let q = receive alive loads x m in
      ap (λ z. (q.0 ++ z.0, z.1)) (listen-append a b q.1)
      ∙ ap (λ o. (o, (listen alive loads b (listen alive loads a q.1).1).1))
          (sym (append_assoc q.0 (listen alive loads a q.1).0 _))

  pub connect_once-clients :
      (a : Attempt) (s : Bridge)
      → AreMade s.clients.made s.clients.unclosed
      → let s' = connect_once a s in
        (s'.clients.unclosed ≡ s.clients.unclosed) × AreMade s'.clients.made s'.clients.unclosed
  unfolding connect_once
  connect_once-clients a s h =
      let same = aclose-from_url s.clients h in
      (same, rw same (AreMade-suc s.clients.made s.clients.unclosed h))

  -- The task runs on if and only if no turn of its loop was cancelled, however often the connection was lost. What it sends,
  -- and what it leaves in the registry, is what one connection would that received all that was
  -- received up to then. No client of its own stays open.
  pub run_subscriber_lem :
      (attempts : List Attempt) (s : Bridge)
      → AreMade s.clients.made s.clients.unclosed
      → let (runs, s') = run_subscriber attempts s in
        let (sent, m) = listen alive loads (heard attempts) s.manager in
        (runs ≡ not (any (λ a. is_cancelled a.ending) attempts))
        × (s'.outputs ≡ s.outputs ++ sent)
        × (s'.manager ≡ m)
        × (s'.clients.unclosed ≡ s.clients.unclosed)
  unfolding run_subscriber connect_once listen
  run_subscriber_lem [] s h = (refl, sym (append-nil s.outputs), refl, refl)
  run_subscriber_lem (a ∷ attempts) s h =
      let (kept, made) = connect_once-clients a s h in
      let whole = listen-append a.messages (heard attempts) s.manager in
      let first = listen alive loads a.messages s.manager in
      ground (
        arith,
        kept,
        run_subscriber_lem attempts (connect_once a s) made,
        ap (λ z. z.0) whole,
        ap (λ z. z.1) whole,
        append_assoc s.outputs first.0 (listen alive loads (heard attempts) first.1).0,
      )
