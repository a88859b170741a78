-- ===== src/ConnectionManager/Total.antt =====
-- What `total_connections` counts.
use fastapi_realtime_chat.Prelude.{
  ◌≡◌, refl, sym, ap, ◌∙◌, inl, inr, Bool, ◌&&◌, none, List, [], ◌∷◌, ◌++◌, arith, if◌then◌else◌,
  Bool-cases, is_some, ◌==◌, Text, text_beq_iff, nat_eq, text_eq, beq_refl, length, count,
  length-append, count-append,
}
use fastapi_realtime_chat.Dict.{Dict, get, get_or, values}
use fastapi_realtime_chat.Dict.Distinct.{Distinct}
use fastapi_realtime_chat.Protocol.{Socket}
use fastapi_realtime_chat.ConnectionManager.{ConnectionManager, sum_lengths, total_connections}
use fastapi_realtime_chat.ConnectionManager.Laws.{registered}
use fastapi_realtime_chat.ConnectionManager.Consistent.{IsConsistent}

-- The users of a room, and of all rooms, each with the room.
abbrev pairs_of : Text → Dict Text Socket → List (Text × Text)
pairs_of r [] = []
pairs_of r ((u, ws) ∷ sockets) = (r, u) ∷ pairs_of r sockets

abbrev in_rooms : Dict Text (Dict Text Socket) → List (Text × Text)
in_rooms [] = []
in_rooms ((r, sockets) ∷ rooms) = pairs_of r sockets ++ in_rooms rooms

abbrev is_pair : (room_id user_id : Text) → Text × Text → Bool
is_pair r u p = p.0 == r && p.1 == u

count-pairs_of :
    (r r' u : Text) (sockets : Dict Text Socket)
    → Distinct sockets
    → count (is_pair r' u) (pairs_of r sockets)
      ≡ (if r == r' && is_some (get u sockets) then 1 else 0)
unfolding get
count-pairs_of r r' u [] h = ground arith
count-pairs_of r r' u ((v, ws) ∷ sockets) h =
    ground (arith, count-pairs_of r r' u sockets h.1, text_beq_iff v u)

length-pairs_of :
    (r : Text) (sockets : Dict Text Socket) → length (pairs_of r sockets) ≡ length sockets
length-pairs_of r [] = refl
length-pairs_of r ((u, ws) ∷ sockets) = ground (arith, length-pairs_of r sockets)

length-in_rooms :
    (rooms : Dict Text (Dict Text Socket)) → length (in_rooms rooms) ≡ sum_lengths (values rooms)
unfolding sum_lengths
length-in_rooms [] = refl
length-in_rooms ((r, sockets) ∷ rooms) =
    length-append (pairs_of r sockets) (in_rooms rooms)
    ∙ ground (arith, length-pairs_of r sockets, length-in_rooms rooms)

head-Distinct :
    (r : Text) (sockets : Dict Text Socket) (rooms : Dict Text (Dict Text Socket))
    → ((x : Text) → Distinct (get_or [] x ((r, sockets) ∷ rooms)))
    → Distinct sockets
unfolding get_or get
head-Distinct r sockets rooms h = ground (arith, h r, beq_refl {A = Text} r)

tail-Distinct :
    (r r' : Text) (sockets : Dict Text Socket) (rooms : Dict Text (Dict Text Socket))
    → get r rooms ≡ none
    → ((x : Text) → Distinct (get_or [] x ((r, sockets) ∷ rooms)))
    → Distinct (get_or [] r' rooms)
unfolding get_or get
tail-Distinct r r' sockets rooms fresh h = elim (Bool-cases (r == r')) [
  | inl e ↦ ground (arith, text_beq_iff r r')
  | inr e ↦ ground (arith, h r')
]

count-in_rooms :
    (r u : Text) (rooms : Dict Text (Dict Text Socket))
    → Distinct rooms
    → ((x : Text) → Distinct (get_or [] x rooms))
    → count (is_pair r u) (in_rooms rooms) ≡ (if is_some (get u (get_or [] r rooms)) then 1 else 0)
unfolding get_or get
count-in_rooms r u [] h each = refl
count-in_rooms r u ((s, sockets) ∷ rooms) h each =
    count-append (is_pair r u) (pairs_of s sockets) (in_rooms rooms)
    ∙ ground (
      arith,
      count-pairs_of s r u sockets (head-Distinct s sockets rooms each),
      count-in_rooms r u rooms h.1 (λ x. tail-Distinct s x sockets rooms h.0 each),
      text_beq_iff s r,
    )

-- `total_connections` of a consistent registry is the length of a list of rooms and users that has
-- each pair once if it is registered, and never otherwise.
pub total_connections_lem :
    (m : ConnectionManager)
    → IsConsistent m
    → (ps : List (Text × Text)) × (total_connections m ≡ length ps)
      × ((r u : Text)
          → count (λ p. p.0 == r && p.1 == u) ps ≡ (if is_some (registered r u m) then 1 else 0))
unfolding total_connections registered
total_connections_lem m h = (
  in_rooms m.rooms,
  sym (length-in_rooms m.rooms),
  λ r u. count-in_rooms r u m.rooms h.rooms_distinct h.users_distinct,
)

never_empty :
    (ps : List (Text × Text))
    → ((r u : Text) → count (λ p. p.0 == r && p.1 == u) ps ≡ 0)
    → length ps ≡ 0
never_empty [] h = refl
never_empty ((r, u) ∷ ps) h =
    absurd (ground (arith, h r u, beq_refl {A = Text} r, beq_refl {A = Text} u))

pub total_connections-nobody :
    (m : ConnectionManager)
    → IsConsistent m
    → ((r u : Text) → registered r u m ≡ none)
    → total_connections m ≡ 0
total_connections-nobody m h nobody =
    let (ps, total, each) = total_connections_lem m h in
    total ∙ never_empty ps (λ r u. each r u ∙ ap (λ o. if is_some o then 1 else 0) (nobody r u))
