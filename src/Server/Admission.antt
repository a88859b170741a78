-- ===== src/Server/Admission.antt =====
-- Who gets what is sent to a room, in every interleaving of the endpoints of a process.
use fastapi_realtime_chat.Prelude.{
  ℕ, ◌<◌, ◌≡◌, refl, sym, ap, ◌∙◌, ◌⊎◌, inl, inr, Bool, true, false, some, List, [], ◌∷◌, map,
  arith, nat_beq, nat_beq_iff, Bool-cases, Text, text_beq_iff, nat_eq, text_eq, beq_refl, filter,
}
use fastapi_realtime_chat.Dict.{Dict, get, get_or, values}
use fastapi_realtime_chat.Dict.Distinct.{Distinct}
use fastapi_realtime_chat.Exec.{ok}
use fastapi_realtime_chat.Uuid
use fastapi_realtime_chat.Sql.{Sql}
use fastapi_realtime_chat.Redis.{Redis}
use fastapi_realtime_chat.Protocol.{Socket, Event, Output, send}
use fastapi_realtime_chat.Models.{User}
use fastapi_realtime_chat.Rooms.{is_member}
use fastapi_realtime_chat.Presence.{TtlSettings, is_online}
use fastapi_realtime_chat.Presence.Heartbeat.{wait}
use fastapi_realtime_chat.ConnectionManager.{broadcast_to_room}
use fastapi_realtime_chat.ConnectionManager.Laws.{registered}
use fastapi_realtime_chat.ConnectionManager.Broadcast.{broadcast_sends}
use fastapi_realtime_chat.Handlers.{Outside}
use fastapi_realtime_chat.WebSocket.{Process}
use fastapi_realtime_chat.Server.{
  Task, idle, entered, serving, leaving, departed, failed, ended, Server, Step, update, Reach, here,
  next, writes, starting, unknown_room, not_member, enters, announces, takes, beats, leaves, fails,
  signs_off, ends, drops, passes,
}
use fastapi_realtime_chat.Server.Invariant.{holds}
use fastapi_realtime_chat.Server.Quiet.{Reach-starting}

-- Whether all entries of a list are so.
abbrev pub AllOf : {A : Type 0} → (A → Type 0) → List A → Type 0
AllOf P [] = Unit
AllOf P (x ∷ xs) = P x × AllOf P xs

AllOf-map :
    {A B : Type 0} (P : B → Type 0) (f : A → B) (q : A → Bool) (xs : List A)
    → AllOf (λ x. P (f x)) xs
    → AllOf P (map f (filter q xs))
AllOf-map P f q [] h = tt
AllOf-map P f q (x ∷ xs) h = ground (arith, AllOf-map P f q xs h.1)

-- What holds of every entry that a lookup finds holds of all entries.
AllOf-values :
    (P : Socket → Type 0) (d : Dict Text Socket)
    → Distinct d
    → ((u : Text) (ws : Socket) → get u d ≡ some ws → P ws)
    → AllOf P (values d)
unfolding get
AllOf-values P [] h each = tt
AllOf-values P ((k, v) ∷ d) h each = (
  each k v (ground (arith, beq_refl {A = Text} k)),
  AllOf-values P d h.1 (λ u ws e. each u ws (ground (arith, text_beq_iff k u, h.0))),
)

-- What the step of one task gives, if it is not the handshake.
kept_or :
    {A : Type 0} (task : Socket → Task) (w : Socket) (x : Task) (ws : Socket) (r u : Text)
    → (holds r u x ≡ true → (holds r u (task w) ≡ true) ⊎ A)
    → holds r u (update task w x ws) ≡ true
    → (holds r u (task ws) ≡ true) ⊎ A
kept_or task w x ws r u step h = elim (Bool-cases (nat_beq w ws)) [
  | inl e ↦ let same = (nat_beq_iff w ws).0 e in rw (ap task (sym same)) (step (rw e at h))
  | inr e ↦ inl (rw e at h)
]

module _ {sql : Sql} {redis : Redis} (settings : TtlSettings) where
  -- The user was found to be a member of the room in some state on the way.
  pub record Admitted (s t : Server sql redis) (user_id room_id : Text) : Type 0 where
    pub user : User
    pub room : ℕ
    pub at : Server sql redis
    pub before : Reach settings s at
    pub after : Reach settings at t
    pub same_user : Uuid.str user.id ≡ user_id
    pub same_room : Uuid.parse room_id ≡ some room
    pub member : (is_member room user.id at.process.backend).0 ≡ ok true

  Admitted-later :
      {s t t' : Server sql redis} (u r : Text)
      → ((at : Server sql redis) → Reach settings at t → Reach settings at t')
      → Admitted s t u r
      → Admitted s t' u r
  Admitted-later u r later a = record {
    user = a.user;
    room = a.room;
    at = a.at;
    before = a.before;
    after = later a.at a.after;
    same_user = a.same_user;
    same_room = a.same_room;
    member = a.member;
  }

  -- A socket that is held after a step was held before, or its user was found to be a member.
  Step-Admitted :
      (out : Outside) {s t t' : Server sql redis}
      → out.settings ≡ settings
      → Reach settings s t
      → Step out t t'
      → (ws : Socket) (u r : Text) → holds r u (t'.task ws) ≡ true
      → (holds r u (t.task ws) ≡ true) ⊎ Admitted s t' u r
  unfolding holds
  Step-Admitted out {s} {t} same reach (unknown_room w room_id e parsed) ws u r h =
      kept_or t.task w ended ws r u (λ q. absurd (ground arith)) h
  Step-Admitted out {s} {t} same reach (not_member w v room_id room e parsed out_of) ws u r h =
      kept_or t.task w ended ws r u (λ q. absurd (ground arith)) h
  Step-Admitted out {s} {t} same reach (enters w v room_id room e parsed member) ws u r h =
      kept_or t.task w (entered v room_id) ws r u
        (λ q. inr (record {
          user = v;
          room = room;
          at = t;
          before = reach;
          after = next out same here (enters w v room_id room e parsed member);
          same_user = (text_beq_iff (Uuid.str v.id) u).0 (ground arith);
          same_room = ap Uuid.parse (sym ((text_beq_iff room_id r).0 (ground arith))) ∙ parsed;
          member = member;
        }))
        h
  Step-Admitted out {s} {t} same reach (announces w v room_id e) ws u r h =
      kept_or t.task w (serving v room_id) ws r u (λ q. inl (ground (arith, e))) h
  Step-Admitted out same reach (takes w v room_id payload e) ws u r h = inl h
  Step-Admitted out same reach (beats w v room_id e) ws u r h = inl h
  Step-Admitted out {s} {t} same reach (leaves w v room_id e) ws u r h =
      kept_or t.task w (leaving v room_id) ws r u (λ q. absurd (ground arith)) h
  Step-Admitted out {s} {t} same reach (fails w v room_id e lost) ws u r h =
      kept_or t.task w (failed v) ws r u (λ q. absurd (ground arith)) h
  Step-Admitted out {s} {t} same reach (signs_off w v room_id e loaded) ws u r h =
      kept_or t.task w (departed v) ws r u (λ q. absurd (ground arith)) h
  Step-Admitted out {s} {t} same reach (ends w v e) ws u r h =
      kept_or t.task w ended ws r u (λ q. absurd (ground arith)) h
  Step-Admitted out same reach (drops room_id stale sent) ws u r h = inl h
  Step-Admitted out same reach (passes seconds) ws u r h = inl h

  Reach-Admitted :
      {s t : Server sql redis}
      → ((ws : Socket) → s.task ws ≡ idle)
      → Reach settings s t
      → (ws : Socket) (u r : Text) → holds r u (t.task ws) ≡ true
      → Admitted s t u r
  unfolding holds
  Reach-Admitted idle_all here ws u r h = absurd (ground (arith, idle_all ws))
  Reach-Admitted idle_all (next out same reach step) ws u r h =
      elim (Step-Admitted out same reach step ws u r h) [
        | inl before ↦
            Admitted-later u r (λ at q. next out same q step)
              (Reach-Admitted idle_all reach ws u r before)
        | inr admitted ↦ admitted
      ]
  Reach-Admitted idle_all (writes db committed published reach) ws u r h =
      Admitted-later u r (λ at q. writes db committed published q)
        (Reach-Admitted idle_all reach ws u r h)

module _ {sql : Sql} {redis : Redis} (settings : TtlSettings)
    (presence_positive : 0 < settings.presence_ttl_seconds)
    (typing_positive : 0 < settings.typing_ttl_seconds) (p : Process sql redis)
    (up : p.backend.redis_up ≡ true)
    (nobody : (u : Text) (d : ℕ) → (is_online u (wait d p.backend)).0 ≡ ok false) where
  -- A process that starts with Redis up, nobody online and times to live above zero. In whatever
  -- state, also after HTTP requests have changed the tables, all that a broadcast to a room sends is the message, to the socket of an endpoint that is
  -- in that room before its `finally`, and whose user was found to be a member of the room on the
  -- way to that state.
  pub broadcast-Admitted :
      (t : Server sql redis)
      → Reach settings (starting p) t
      → (alive : Socket → Bool) (r : Text) (msg : Event)
      → AllOf
          (λ o.
            (ws : Socket) × (u : Text) × (o ≡ send ws msg)
            × (holds r u (t.task ws) ≡ true)
            × Admitted settings (starting p) t u r)
          (broadcast_to_room alive r msg t.process.manager).0
  unfolding registered
  broadcast-Admitted t reach alive r msg =
      let inv = Reach-starting settings presence_positive typing_positive p up nobody reach in
      let sockets = get_or [] r t.process.manager.rooms in
      let sent = λ (o : Output).
        (ws : Socket) × (u : Text) × (o ≡ send ws msg)
        × (holds r u (t.task ws) ≡ true)
        × Admitted settings (starting p) t u r in
      rw (broadcast_sends alive msg r t.process.manager) (
        AllOf-map sent (λ ws. send ws msg) alive (values sockets)
          (AllOf-values (λ ws. sent (send ws msg)) sockets (inv.consistent.users_distinct r)
            (λ u ws e.
              let held = inv.held r u ws e in
              (ws, u, refl, held, Reach-Admitted settings (λ x. refl) reach ws u r held))))
