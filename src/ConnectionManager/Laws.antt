-- ===== src/ConnectionManager/Laws.antt =====
-- What the registry holds for a user in a room, from both of its maps, after each operation.
use fastapi_realtime_chat.Prelude.{
  ◌≡◌, ◌∙◌, refl, false, Bool, not, ◌&&◌, ◌||◌, Option, none, some, List, [], ◌∷◌, ◌++◌, arith,
  if◌then◌else◌, ◌==◌, Text, text_beq_iff, nat_eq, text_eq,
}
use fastapi_realtime_chat.Dict.{Dict, get, get_or, pop, modify, put}
use fastapi_realtime_chat.Dict.Laws.{get_or-modify, get_or-pop, get-put, get-pop}
use fastapi_realtime_chat.Protocol.{Socket}
use fastapi_realtime_chat.ConnectionManager.{
  ConnectionManager, contains, add, discard, connect, disconnect, drop_empty, drop_user, drop_stale,
}

-- The socket of a user in a room.
unfoldable pub registered : Text → Text → ConnectionManager → Option Socket
registered r u m = get u (get_or [] r m.rooms)

-- Whether the user's set of rooms has the room.
unfoldable pub joined : Text → Text → ConnectionManager → Bool
joined r u m = contains r (get_or [] u m.user_rooms)

contains-append :
    (x y : Text) (xs : List Text) → contains x (xs ++ y ∷ []) ≡ contains x xs || y == x
contains-append x y [] = ground arith
contains-append x y (z ∷ xs) = ground (arith, contains-append x y xs)

pub contains-add : (x y : Text) (xs : List Text) → contains y (add x xs) ≡ x == y || contains y xs
unfolding add
contains-add x y xs = ground (arith, contains-append y x xs, text_beq_iff x y)

pub contains-discard :
    (x y : Text) (xs : List Text) → contains y (discard x xs) ≡ not (x == y) && contains y xs
unfolding discard
contains-discard x y [] = ground arith
contains-discard x y (z ∷ xs) =
    ground (arith, contains-discard x y xs, text_beq_iff z x, text_beq_iff x y, text_beq_iff z y)

-- Deleting an empty entry of a `defaultdict` is not seen by a lookup with the default.
pub get_or-drop_empty {ℓ} :
    {A : Type ℓ} (k j : Text) (d : Dict Text (List A))
    → get_or [] j (drop_empty k d) ≡ get_or [] j d
unfolding drop_empty
get_or-drop_empty k j d = ground (arith, get_or-pop [] k j d, text_beq_iff k j)

module _ (r u r' u' : Text) (m : ConnectionManager) where
  pub registered-connect :
      (ws : Socket)
      → registered r' u' (connect ws r u m).1
        ≡ (if r == r' && u == u' then some ws else registered r' u' m)
  unfolding registered connect
  registered-connect ws =
      let rooms₁ = modify [] r (λ x. x) m.rooms in
      ground (
        arith,
        get_or-modify [] r r' (put u ws) rooms₁,
        get_or-modify [] r r' (λ x. x) m.rooms,
        get_or-modify [] r r (λ x. x) m.rooms,
        get-put u u' ws (get_or [] r rooms₁),
        text_beq_iff r r',
        text_beq_iff r r,
      )

  pub joined-connect :
      (ws : Socket) → joined r' u' (connect ws r u m).1 ≡ (r == r' && u == u') || joined r' u' m
  unfolding joined connect
  joined-connect ws = ground (
    arith,
    get_or-modify [] u u' (add r) m.user_rooms,
    contains-add r r' (get_or [] u m.user_rooms),
    text_beq_iff u u',
  )

  pub registered-drop_user :
      registered r' u' (drop_user r u m) ≡ (if r == r' && u == u' then none else registered r' u' m)
  unfolding registered drop_user
  registered-drop_user = ground (
    arith,
    get_or-modify [] r r' (pop u) m.rooms,
    get-pop u u' (get_or [] r m.rooms),
    text_beq_iff r r',
  )

  pub joined-drop_user : joined r' u' (drop_user r u m) ≡ not (r == r' && u == u') && joined r' u' m
  unfolding joined drop_user
  joined-drop_user = ground (
    arith,
    get_or-modify [] u u' (discard r) m.user_rooms,
    contains-discard r r' (get_or [] u m.user_rooms),
    text_beq_iff u u',
  )

  -- `disconnect` differs from `drop_user` by the empty entries that it deletes.
  pub registered-disconnect :
      registered r' u' (disconnect r u m)
      ≡ (if r == r' && u == u' then none else registered r' u' m)
  unfolding registered disconnect
  registered-disconnect =
      rw (get_or-drop_empty r r' (modify [] r (pop u) m.rooms))
        (unfold drop_user registered in registered-drop_user)

  pub joined-disconnect :
      joined r' u' (disconnect r u m) ≡ not (r == r' && u == u') && joined r' u' m
  unfolding joined disconnect
  joined-disconnect =
      rw (get_or-drop_empty u u' (modify [] u (discard r) m.user_rooms))
        (unfold drop_user joined in joined-drop_user)

-- The other rooms keep their sockets.
pub rooms-drop_stale :
    (r r' : Text) (stale : List Text) (m : ConnectionManager)
    → (r == r') ≡ false
    → get_or [] r' (drop_stale r stale m).rooms ≡ get_or [] r' m.rooms
unfolding drop_stale drop_user
rooms-drop_stale r r' [] m other = refl
rooms-drop_stale r r' (u ∷ stale) m other =
    rooms-drop_stale r r' stale (drop_user r u m) other
    ∙ ground (arith, get_or-modify [] r r' (pop u) m.rooms)

pub registered-drop_stale :
    (r r' u : Text) (stale : List Text) (m : ConnectionManager)
    → registered r' u (drop_stale r stale m)
      ≡ (if r == r' && contains u stale then none else registered r' u m)
unfolding drop_stale
registered-drop_stale r r' u [] m = ground arith
registered-drop_stale r r' u (v ∷ stale) m =
    ground
      (arith, registered-drop_stale r r' u stale (drop_user r v m), registered-drop_user r v r' u m)
