-- ===== src/ConnectionManager/Consistent.antt =====
-- The two maps of the registry agree, and its dictionaries have one entry for each key.
use fastapi_realtime_chat.Prelude.{
  ◌≡◌, refl, sym, ap, ◌∙◌, ◌↔◌, true, Option, some, List, [], ◌∷◌, arith, is_some, Text, nat_eq,
  text_eq, beq_refl,
}
use fastapi_realtime_chat.Dict.{Dict, get, get_or, pop, modify, put}
use fastapi_realtime_chat.Dict.Laws.{get_or-modify}
use fastapi_realtime_chat.Dict.Distinct.{Distinct, Distinct-modify, Distinct-pop, Distinct-put}
use fastapi_realtime_chat.Protocol.{Socket}
use fastapi_realtime_chat.ConnectionManager.{
  ConnectionManager, init, connect, disconnect, drop_empty, drop_user, drop_stale, is_connected,
  contains,
}
use fastapi_realtime_chat.ConnectionManager.Laws.{
  registered, joined, registered-connect, joined-connect, registered-disconnect, joined-disconnect,
  registered-drop_user, joined-drop_user, get_or-drop_empty,
}

pub record IsConsistent (m : ConnectionManager) : Type 0 where
  pub agree : (r u : Text) → is_some (registered r u m) ≡ joined r u m
  pub rooms_distinct : Distinct m.rooms
  pub users_distinct : (r : Text) → Distinct (get_or [] r m.rooms)

pub init-IsConsistent : IsConsistent init
unfolding registered joined get_or get
init-IsConsistent = record { agree = λ r u. refl; rooms_distinct = tt; users_distinct = λ r. tt }

Distinct-at_modify :
    (r r' : Text) (f : Dict Text Socket → Dict Text Socket) (d : Dict Text (Dict Text Socket))
    → ((s : Dict Text Socket) → Distinct s → Distinct (f s))
    → ((x : Text) → Distinct (get_or [] x d))
    → Distinct (get_or [] r' (modify [] r f d))
Distinct-at_modify r r' f d keep h =
    rw (get_or-modify [] r r' f d) (ground (arith, keep (get_or [] r d) (h r), h r'))

Distinct-drop_empty :
    (k : Text) (d : Dict Text (Dict Text Socket)) → Distinct d → Distinct (drop_empty k d)
unfolding drop_empty
Distinct-drop_empty k d h = ground (arith, Distinct-pop k d h)

pub connect-IsConsistent :
    (ws : Socket) (r u : Text) (m : ConnectionManager)
    → IsConsistent m
    → IsConsistent (connect ws r u m).1
connect-IsConsistent ws r u m h = record {
  agree = λ r' u'.
      ground
        (arith, registered-connect r u r' u' m ws, joined-connect r u r' u' m ws, h.agree r' u');
  rooms_distinct =
      unfold connect in
      Distinct-modify [] r (put u ws) _ (Distinct-modify [] r (λ x. x) m.rooms h.rooms_distinct);
  users_distinct = λ r'.
      unfold connect in
      Distinct-at_modify r r' (put u ws) _ (λ s d. Distinct-put u ws s d)
        (λ x. Distinct-at_modify r x (λ s. s) m.rooms (λ s d. d) h.users_distinct);
}

pub drop_user-IsConsistent :
    (r u : Text) (m : ConnectionManager) → IsConsistent m → IsConsistent (drop_user r u m)
drop_user-IsConsistent r u m h = record {
  agree = λ r' u'.
      ground (arith, registered-drop_user r u r' u' m, joined-drop_user r u r' u' m, h.agree r' u');
  rooms_distinct = unfold drop_user in Distinct-modify [] r (pop u) m.rooms h.rooms_distinct;
  users_distinct = λ r'.
      unfold drop_user in
      Distinct-at_modify r r' (pop u) m.rooms (λ s d. Distinct-pop u s d) h.users_distinct;
}

pub disconnect-IsConsistent :
    (r u : Text) (m : ConnectionManager) → IsConsistent m → IsConsistent (disconnect r u m)
disconnect-IsConsistent r u m h = record {
  agree = λ r' u'.
      ground
        (arith, registered-disconnect r u r' u' m, joined-disconnect r u r' u' m, h.agree r' u');
  rooms_distinct =
      unfold disconnect in
      Distinct-drop_empty r _ (Distinct-modify [] r (pop u) m.rooms h.rooms_distinct);
  users_distinct = λ r'.
      unfold disconnect in
      rw (get_or-drop_empty r r' (modify [] r (pop u) m.rooms))
        (Distinct-at_modify r r' (pop u) m.rooms (λ s d. Distinct-pop u s d) h.users_distinct);
}

pub drop_stale-IsConsistent :
    (r : Text) (stale : List Text) (m : ConnectionManager)
    → IsConsistent m
    → IsConsistent (drop_stale r stale m)
unfolding drop_stale
drop_stale-IsConsistent r [] m h = h
drop_stale-IsConsistent r (u ∷ stale) m h =
    drop_stale-IsConsistent r stale _ (drop_user-IsConsistent r u m h)

contains_head : (x : Text) (xs : List Text) → contains x (x ∷ xs) ≡ true
contains_head x xs = ground (arith, beq_refl {A = Text} x)

some_room :
    (u : Text) (m : ConnectionManager) (rs : List Text)
    → get_or [] u m.user_rooms ≡ rs
    → is_connected u m ≡ true
    → (r : Text) × (joined r u m ≡ true)
unfolding is_connected joined
some_room u m [] e h = absurd (ground arith)
some_room u m (r ∷ rs) e h = (r, rw e (contains_head r rs))

joined_connected :
    (r u : Text) (m : ConnectionManager) → joined r u m ≡ true → is_connected u m ≡ true
unfolding is_connected joined
joined_connected r u m h = ground arith

some_socket : (o : Option Socket) → is_some o ≡ true → (ws : Socket) × (o ≡ some ws)
some_socket o h = ground arith

-- In a consistent registry, `is_connected` says whether the user has a socket in some room.
pub is_connected_iff :
    (u : Text) (m : ConnectionManager)
    → IsConsistent m
    → (is_connected u m ≡ true) ↔ ((r : Text) × (ws : Socket) × (registered r u m ≡ some ws))
is_connected_iff u m h = (
  λ c.
      let (r, j) = some_room u m (get_or [] u m.user_rooms) refl c in
      let (ws, e) = some_socket (registered r u m) (h.agree r u ∙ j) in (r, ws, e),
  λ w. joined_connected w.0 u m (sym (h.agree w.0 u) ∙ ap is_some w.2),
)
