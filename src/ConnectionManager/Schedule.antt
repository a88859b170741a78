-- ===== src/ConnectionManager/Schedule.antt =====
-- The critical sections of the lock in any order, as the tasks of one process interleave them: a
-- broadcast that waits for its sends may find another registry when it drops its stale users.
use fastapi_realtime_chat.Prelude.{
  ◌≡◌, refl, ap, ◌∙◌, Bool, true, false, ◌&&◌, Option, none, some, List, [], ◌∷◌, arith,
  if◌then◌else◌, ◌==◌, Text, nat_eq, text_eq, beq_refl,
}
use mathlib.Core.Path.{fun_ext}
use fastapi_realtime_chat.Dict.{get_or}
use fastapi_realtime_chat.Protocol.{Socket, Event}
use fastapi_realtime_chat.ConnectionManager.{
  ConnectionManager, init, connect, disconnect, snapshot, send_all, drop_stale, contains,
}
use fastapi_realtime_chat.ConnectionManager.Laws.{
  registered, registered-connect, registered-disconnect, registered-drop_stale,
}
use fastapi_realtime_chat.ConnectionManager.Consistent.{
  IsConsistent, init-IsConsistent, connect-IsConsistent, disconnect-IsConsistent,
  drop_stale-IsConsistent,
}
use fastapi_realtime_chat.ConnectionManager.Broadcast.{contains-stale}

-- One critical section.
pub data Section : Type 0 where
  connects : Socket → (room_id user_id : Text) → Section
  disconnects : (room_id user_id : Text) → Section
  drops : (room_id : Text) → (stale : List Text) → Section

unfoldable pub step : ConnectionManager → Section → ConnectionManager
step m (connects ws r u) = (connect ws r u m).1
step m (disconnects r u) = disconnect r u m
step m (drops r stale) = drop_stale r stale m

unfoldable pub run : ConnectionManager → List Section → ConnectionManager
unfolding step
run m [] = m
run m (s ∷ ss) = run (step m s) ss

step-IsConsistent : (m : ConnectionManager) (s : Section) → IsConsistent m → IsConsistent (step m s)
unfolding step
step-IsConsistent m (connects ws r u) h = connect-IsConsistent ws r u m h
step-IsConsistent m (disconnects r u) h = disconnect-IsConsistent r u m h
step-IsConsistent m (drops r stale) h = drop_stale-IsConsistent r stale m h

run-IsConsistent :
    (m : ConnectionManager) (ss : List Section) → IsConsistent m → IsConsistent (run m ss)
unfolding run
run-IsConsistent m [] h = h
run-IsConsistent m (s ∷ ss) h = run-IsConsistent (step m s) ss (step-IsConsistent m s h)

-- However the tasks of a process interleave their critical sections, the two maps of the registry
-- agree and no key stands twice.
pub run-init-IsConsistent : (ss : List Section) → IsConsistent (run init ss)
run-init-IsConsistent ss = run-IsConsistent init ss init-IsConsistent

-- The abstract registry: a partial map from a room and a user to a socket, and its updates.
abbrev pub Registry : Type 0
Registry = Text → Text → Option Socket

unfoldable pub update : Registry → Section → Registry
update g (connects ws r u) r' u' = if r == r' && u == u' then some ws else g r' u'
update g (disconnects r u) r' u' = if r == r' && u == u' then none else g r' u'
update g (drops r stale) r' u' = if r == r' && contains u' stale then none else g r' u'

unfoldable pub updates : Registry → List Section → Registry
unfolding update
updates g [] = g
updates g (s ∷ ss) = updates (update g s) ss

abbrev pub view : ConnectionManager → Registry
view m r u = registered r u m

view-step : (m : ConnectionManager) (s : Section) → view (step m s) ≡ update (view m) s
unfolding step update
view-step m (connects ws r u) = fun_ext λ r'. fun_ext λ u'. registered-connect r u r' u' m ws
view-step m (disconnects r u) = fun_ext λ r'. fun_ext λ u'. registered-disconnect r u r' u' m
view-step m (drops r stale) = fun_ext λ r'. fun_ext λ u'. registered-drop_stale r r' u' stale m

-- The nested dictionaries implement the partial map, in every interleaving: what is registered
-- after the critical sections is what the pointwise updates give.
pub view-run : (m : ConnectionManager) (ss : List Section) → view (run m ss) ≡ updates (view m) ss
unfolding run updates
view-run m [] = refl
view-run m (s ∷ ss) = view-run (step m s) ss ∙ ap (λ g. updates g ss) (view-step m s)

-- In a consistent registry, a user whose socket died in a broadcast, and who connects again with
-- a live one before the broadcast drops its stale users, loses the new socket from the registry.
pub reconnect_dropped :
    (alive : Socket → Bool) (msg : Event) (r u : Text) (old ws : Socket) (m : ConnectionManager)
    → IsConsistent m
    → registered r u m ≡ some old
    → alive old ≡ false
    → alive ws ≡ true
    → let stale = (send_all alive msg (snapshot r m)).1 in
      registered r u (run m (connects ws r u ∷ drops r stale ∷ [])) ≡ none
unfolding run step snapshot registered
reconnect_dropped alive msg r u old ws m h e gone live =
    let sockets = get_or [] r m.rooms in
    ground (
      arith,
      registered-drop_stale r r u (send_all alive msg sockets).1 (connect ws r u m).1,
      contains-stale alive msg u sockets (h.users_distinct r),
      beq_refl {A = Text} r,
    )
