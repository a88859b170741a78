-- ===== src/Integrity/History.antt =====
-- All that happens to a process: its connections (app/websocket/router.py) and the HTTP requests
-- that it serves (app/api/v1/endpoints), in any order.
use fastapi_realtime_chat.Prelude.{◌≡◌, ◌≢◌, refl, sym, false, arith, Text, nat_eq, text_eq}
use fastapi_realtime_chat.Exec.{wrong_row_count, Result, ok, err, Exec}
use fastapi_realtime_chat.Sql.{Sql}
use fastapi_realtime_chat.Redis.{Redis}
use fastapi_realtime_chat.Backend.{Backend}
use fastapi_realtime_chat.Users.{update_last_seen}
use fastapi_realtime_chat.Presence.{set_online, set_offline, refresh_presence}
use fastapi_realtime_chat.Handlers.{Outside}
use fastapi_realtime_chat.WebSocket.{on_backend}
use fastapi_realtime_chat.Server.{
  Server, Step, unknown_room, not_member, enters, announces, takes, beats, leaves, fails, signs_off,
  ends, drops, passes,
}
use fastapi_realtime_chat.Api.{get_db}
use fastapi_realtime_chat.Requests.{Request, Given, Draws, perform}
use fastapi_realtime_chat.Integrity.{IsIntact}
use fastapi_realtime_chat.Integrity.Safe.{miscounts, Sound}
use fastapi_realtime_chat.Integrity.Services.{
  Safe-set_online, Safe-set_offline, Safe-refresh_presence,
}
use fastapi_realtime_chat.Integrity.Whole.{Safe-perform}
use fastapi_realtime_chat.Integrity.Sockets.{
  turn-Sound, turn-committed, last_seen-Sound, on_backend-Sound,
}

counts_rightly : {A : Type 0} (r : Result A) → miscounts r ≡ false → r ≢ err wrong_row_count
counts_rightly (ok a) h e = absurd (ground arith)
counts_rightly (err x) h e = absurd (ground arith)

module _ {sql : Sql} {redis : Redis} (out : Outside) (given : Given) where
  pub data Move (s : Server sql redis) : Server sql redis → Type 0 where
    socket : {t : Server sql redis} → Step out s t → Move s t
    request :
        (draws : Draws) (r : Request)
        → Move s (record s { process = (on_backend out (perform given draws r) s.process).1 })

  pub data History (s : Server sql redis) : Server sql redis → Type 0 where
    here : History s s
    next : {t t' : Server sql redis} → History s t → Move t t' → History s t'

  Step-Sound :
      {s t : Server sql redis} → Step out s t → Sound s.process.backend → Sound t.process.backend
  Step-Sound (unknown_room ws room_id e parsed) h = h
  Step-Sound (not_member ws u room_id room e parsed out_of) h = h
  Step-Sound (enters ws u room_id room e parsed member) h = h
  Step-Sound {s} (announces ws u room_id e) h =
      on_backend-Sound out _ s.process (Safe-set_online out.settings _ _) h
  Step-Sound {s} (takes ws u room_id payload e) h = turn-Sound out u room_id ws payload s.process h
  Step-Sound {s} (beats ws u room_id e) h =
      on_backend-Sound out _ s.process (Safe-refresh_presence out.settings _ _) h
  Step-Sound (leaves ws u room_id e) h = h
  Step-Sound (fails ws u room_id e lost) h = h
  Step-Sound {s} (signs_off ws u room_id e loaded) h =
      on_backend-Sound out _ s.process (Safe-set_offline _ _) h
  Step-Sound {s} (ends ws u e) h = last_seen-Sound out u.id s.process h
  Step-Sound (drops room_id stale sent) h = h
  Step-Sound (passes seconds) h = record { db = h.db; committed = h.committed }

  Move-Sound :
      {s t : Server sql redis} → Move s t → Sound s.process.backend → Sound t.process.backend
  Move-Sound (socket step) h = Step-Sound step h
  Move-Sound {s} (request draws r) h =
      on_backend-Sound out _ s.process (Safe-perform given draws r) h

  History-Sound :
      {s t : Server sql redis} → History s t → Sound s.process.backend → Sound t.process.backend
  History-Sound here h = h
  History-Sound (next before move) h = Move-Sound move (History-Sound before h)

  -- Nothing is left uncommitted.
  abbrev IsCommitted : Backend sql redis → Type 0
  IsCommitted b = b.db ≡ b.committed

  set_online-IsCommitted :
      (u name : Text) (b : Backend sql redis)
      → IsCommitted b
      → IsCommitted (set_online out.settings u name b).1
  unfolding set_online
  set_online-IsCommitted u name b h = ground arith

  set_offline-IsCommitted :
      (u name : Text) (b : Backend sql redis) → IsCommitted b → IsCommitted (set_offline u name b).1
  unfolding set_offline
  set_offline-IsCommitted u name b h = ground arith

  refresh_presence-IsCommitted :
      (u name : Text) (b : Backend sql redis)
      → IsCommitted b
      → IsCommitted (refresh_presence out.settings u name b).1
  unfolding refresh_presence
  refresh_presence-IsCommitted u name b h = ground arith

  get_db-IsCommitted :
      {A : Type 0} (endpoint : Exec (Backend sql redis) A) (b : Backend sql redis)
      → IsCommitted (get_db endpoint b).1
  unfolding get_db
  get_db-IsCommitted endpoint b = ground arith

  Step-IsCommitted :
      {s t : Server sql redis}
      → Step out s t
      → IsCommitted s.process.backend
      → IsCommitted t.process.backend
  unfolding update_last_seen
  Step-IsCommitted (unknown_room ws room_id e parsed) h = h
  Step-IsCommitted (not_member ws u room_id room e parsed out_of) h = h
  Step-IsCommitted (enters ws u room_id room e parsed member) h = h
  Step-IsCommitted {s} (announces ws u room_id e) h = set_online-IsCommitted _ _ s.process.backend h
  Step-IsCommitted {s} (takes ws u room_id payload e) h =
      turn-committed out u room_id ws payload s.process h
  Step-IsCommitted {s} (beats ws u room_id e) h =
      refresh_presence-IsCommitted _ _ s.process.backend h
  Step-IsCommitted (leaves ws u room_id e) h = h
  Step-IsCommitted (fails ws u room_id e lost) h = h
  Step-IsCommitted {s} (signs_off ws u room_id e loaded) h =
      set_offline-IsCommitted _ _ s.process.backend h
  Step-IsCommitted (ends ws u e) h = refl
  Step-IsCommitted (drops room_id stale sent) h = h
  Step-IsCommitted (passes seconds) h = h

  History-IsCommitted :
      {s t : Server sql redis}
      → History s t
      → IsCommitted s.process.backend
      → IsCommitted t.process.backend
  unfolding perform
  History-IsCommitted here h = h
  History-IsCommitted (next before (socket step)) h =
      Step-IsCommitted step (History-IsCommitted before h)
  History-IsCommitted (next before (request draws r)) h = get_db-IsCommitted _ _

  -- From intact and committed tables, whatever sockets and HTTP requests do to a process and in
  -- whatever order: at every time the tables are intact, nothing is left uncommitted, and no request
  -- meets a query for one row that finds two.
  pub History-IsIntact :
      {s t : Server sql redis}
      → History s t
      → IsIntact sql s.process.backend.db
      → s.process.backend.db ≡ s.process.backend.committed
      → let b = t.process.backend in
        IsIntact sql b.db
        × (b.db ≡ b.committed)
        × ((draws : Draws) (r : Request) → (perform given draws r b).0 ≢ err wrong_row_count)
  History-IsIntact {s} {t} history intact committed =
      let start : Sound s.process.backend = record {
        db = intact;
        committed = rw (sym committed) intact;
      } in
      let sound = History-Sound history start in
      (
        sound.db,
        History-IsCommitted history committed,
        λ draws r. counts_rightly _ ((Safe-perform given draws r).at t.process.backend sound).1,
      )
