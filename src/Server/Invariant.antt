-- ===== src/Server/Invariant.antt =====
-- What holds of the registry and of Redis however the tasks of a process interleave.
use fastapi_realtime_chat.Prelude.{
  ℕ, ◌≡◌, sym, ap, ◌∙◌, ◌⊎◌, inl, inr, Bool, true, false, ◌&&◌, some, arith, nat_beq, nat_beq_iff,
  Bool-cases, is_some, ◌==◌, Text, nat_eq, text_eq, beq_refl,
}
use fastapi_realtime_chat.Uuid
use fastapi_realtime_chat.Sql.{Sql}
use fastapi_realtime_chat.Redis.{Redis}
use fastapi_realtime_chat.Protocol.{Socket}
use fastapi_realtime_chat.Backend.{Backend}
use fastapi_realtime_chat.Presence.Stored.{stored}
use fastapi_realtime_chat.Dict.{get, get_or}
use fastapi_realtime_chat.ConnectionManager.Laws.{registered}
use fastapi_realtime_chat.ConnectionManager.Consistent.{IsConsistent, init-IsConsistent}
use fastapi_realtime_chat.WebSocket.{Process}
use fastapi_realtime_chat.Server.{Task, entered, serving, leaving, failed, Server, update, starting}

-- Whether the endpoint has the user registered in the room, as far as it knows.
unfoldable pub holds : (room_id user_id : Text) → Task → Bool
holds r v (entered u room_id) = room_id == r && Uuid.str u.id == v
holds r v (serving u room_id) = room_id == r && Uuid.str u.id == v
holds r v _ = false

-- Whether the endpoint has shown the user online, and not yet offline.
unfoldable pub shows : (user_id : Text) → Task → Bool
shows v (serving u room_id) = Uuid.str u.id == v
shows v (leaving u room_id) = Uuid.str u.id == v
shows v (failed u) = Uuid.str u.id == v
shows v _ = false

update-keeps :
    (f : Task → Bool) (task : Socket → Task) (ws : Socket) (t : Task) (ws' : Socket)
    → (f (task ws) ≡ true → f t ≡ true)
    → f (task ws') ≡ true
    → f (update task ws t ws') ≡ true
update-keeps f task ws t ws' keep h = elim (Bool-cases (nat_beq ws ws')) [
  | inl e ↦ rw e (keep (ap (λ x. f (task x)) ((nat_beq_iff ws ws').0 e) ∙ h))
  | inr e ↦ rw e h
]

update-at :
    (f : Task → Bool) (task : Socket → Task) (ws : Socket) (t : Task)
    → f t ≡ true
    → f (update task ws t ws) ≡ true
update-at f task ws t h = rw (beq_refl {A = Socket} ws) h

module _ {sql : Sql} {redis : Redis} where
  -- Whether Redis shows the user some seconds later, if nothing happens before.
  abbrev pub shown : Text → ℕ → Backend sql redis → Bool
  shown v d b = is_some (stored v d b)

  pub record Inv (s : Server sql redis) : Type 0 where
    pub up : s.process.backend.redis_up ≡ true
    pub consistent : IsConsistent s.process.manager
    -- Whoever is registered has an endpoint that is not past its loop, with the same socket.
    pub held :
        (r v : Text) (ws : Socket)
        → registered r v s.process.manager ≡ some ws
        → holds r v (s.task ws) ≡ true
    -- Whoever is shown online has an endpoint that has not shown the user offline.
    pub seen :
        (v : Text) (d : ℕ)
        → shown v d s.process.backend ≡ true
        → (ws : Socket) × (shows v (s.task ws) ≡ true)

  pub Inv-starting :
      (p : Process sql redis)
      → p.backend.redis_up ≡ true
      → ((v : Text) (d : ℕ) → shown v d p.backend ≡ false)
      → Inv (starting p)
  unfolding registered get_or get
  Inv-starting p up nobody = record {
    up = up;
    consistent = init-IsConsistent;
    held = λ r v ws e. absurd (ground arith);
    seen = λ v d e. absurd (ground (arith, nobody v d));
  }

  -- A step of one task keeps the invariant, if who it registers and shows is in its new state.
  pub Inv-update :
      {s : Server sql redis} (p : Process sql redis) (ws : Socket) (t : Task)
      → Inv s
      → p.backend.redis_up ≡ true
      → IsConsistent p.manager
      → ((r v : Text) (ws' : Socket)
          → registered r v p.manager ≡ some ws'
          → ((registered r v s.process.manager ≡ some ws')
              × (holds r v (s.task ws) ≡ true → holds r v t ≡ true))
            ⊎ ((ws ≡ ws') × (holds r v t ≡ true)))
      → ((v : Text) (d : ℕ)
          → shown v d p.backend ≡ true
          → ((shown v d s.process.backend ≡ true) × (shows v (s.task ws) ≡ true → shows v t ≡ true))
            ⊎ (shows v t ≡ true))
      → Inv (record { process = p; task = update s.task ws t })
  Inv-update {s} p ws t inv up consistent held seen = record {
    up = up;
    consistent = consistent;
    held = λ r v ws' e. elim (held r v ws' e) [
      | inl (old, keep) ↦ update-keeps (holds r v) s.task ws t ws' keep (inv.held r v ws' old)
      | inr (same, h) ↦ rw (sym same) (update-at (holds r v) s.task ws t h)
    ];
    seen = λ v d e. elim (seen v d e) [
      | inl (old, keep) ↦
          let (w, h) = inv.seen v d old in (w, update-keeps (shows v) s.task ws t w keep h)
      | inr h ↦ (ws, update-at (shows v) s.task ws t h)
    ];
  }

  -- So does a step beside the tasks.
  pub Inv-beside :
      {s : Server sql redis} (p : Process sql redis)
      → Inv s
      → p.backend.redis_up ≡ true
      → IsConsistent p.manager
      → ((r v : Text) (ws : Socket)
          → registered r v p.manager ≡ some ws
          → registered r v s.process.manager ≡ some ws)
      → ((v : Text) (d : ℕ)
          → shown v d p.backend ≡ true
          → ((d' : ℕ) × (shown v d' s.process.backend ≡ true))
            ⊎ ((ws : Socket) × (shows v (s.task ws) ≡ true)))
      → Inv (record s { process = p })
  Inv-beside {s} p inv up consistent held seen = record {
    up = up;
    consistent = consistent;
    held = λ r v ws e. inv.held r v ws (held r v ws e);
    seen = λ v d e. elim (seen v d e) [ inl (d', old) ↦ inv.seen v d' old | inr w ↦ w ];
  }
