-- ===== src/Integrity/Created.antt =====
-- A new room in a process with a history: `POST /rooms`, then `GET /rooms/{room_id}`.
use fastapi_realtime_chat.Prelude.{
  ℕ, ◌≡◌, ap, ◌∙◌, Bool, true, Option, List, [], ◌∷◌, arith, Text, nat_beq_iff, nat_eq, text_eq,
  filter, Bool-cases, inl, inr,
}
use fastapi_realtime_chat.Exec.{ok}
use fastapi_realtime_chat.Sql.{Sql, select_where}
use fastapi_realtime_chat.Redis.{Redis}
use fastapi_realtime_chat.Models.{User, Fresh}
use fastapi_realtime_chat.Backend.{Backend, scalar_one, scalar_one_or_none, result-cases}
use fastapi_realtime_chat.Security.{Crypto}
use fastapi_realtime_chat.Users.{get_user}
use fastapi_realtime_chat.Auth.{active_user, token_user_id, get_current_user}
use fastapi_realtime_chat.Rooms.{RoomCreate, has_user_id}
use fastapi_realtime_chat.Responses.{RoomResponse, user_public}
use fastapi_realtime_chat.Api.{create_room_endpoint, get_room}
use fastapi_realtime_chat.Api.NewRoom.{create_room_endpoint-users, create_room_endpoint-get_room}
use fastapi_realtime_chat.Handlers.{Outside}
use fastapi_realtime_chat.Server.{Server}
use fastapi_realtime_chat.Requests.{Given}
use fastapi_realtime_chat.Integrity.{IsIntact}
use fastapi_realtime_chat.Integrity.History.{History, History-IsIntact}

meets : {R : Type 0} (p : R → Bool) (xs : List R) (r : R) → filter p xs ≡ r ∷ [] → p r ≡ true
meets p [] r h = absurd (ground arith)
meets p (x ∷ xs) r h = elim (Bool-cases (p x)) [
  | inl e ↦ ground (arith, e)
  | inr e ↦ meets p xs r (ground (arith, e))
]

-- Two rows with an account make an error, none or an inactive one make the other.
one_active :
    (rows : List User) (found : Option User) (u : User)
    → scalar_one_or_none rows ≡ ok found
    → active_user found ≡ ok u
    → rows ≡ u ∷ []
one_active [] found u h e = absurd (ground (arith, h, e))
one_active (x ∷ []) found u h e = ground (arith, h, e)
one_active (x ∷ y ∷ rows) found u h e = absurd (ground (arith, h))

-- The row with an id is the row with its own id.
of_id :
    (sql : Sql) (users : sql.Table User) (id : ℕ) (u : User)
    → select_where sql (has_user_id id) users ≡ u ∷ []
    → scalar_one (select_where sql (has_user_id u.id) users) ≡ ok u
of_id sql users id u h =
    let same : u.id ≡ id =
      ground (arith, meets (has_user_id id) (sql.scan User users) u h, nat_beq_iff u.id id) in
    ap (λ k. scalar_one (select_where sql (has_user_id k) users)) same ∙ ap scalar_one h

module _ {sql : Sql} {redis : Redis} (crypto : Crypto) (now : ℕ) (token : Text) (u : User)
    (s : Backend sql redis) where
  -- Who is behind a request is in the table of users.
  current_user-row :
      (get_current_user crypto now token s).0 ≡ ok u
      → scalar_one (select_where sql (has_user_id u.id) s.db.users) ≡ ok u
  unfolding get_current_user get_user
  current_user-row h = elim (result-cases (token_user_id crypto now token)) [
    | inl (id, e) ↦
        elim (result-cases (scalar_one_or_none (select_where sql (has_user_id id) s.db.users))) [
          | inl (found, f) ↦
              of_id sql s.db.users id u (one_active _ found u f (ground (arith, e, f, h)))
          | inr (x, f) ↦ absurd (ground (arith, e, f, h))
        ]
    | inr (x, e) ↦ absurd (ground (arith, e, h))
  ]

  -- It stays so while the table of users does.
  current_user-again :
      (t : Backend sql redis)
      → t.db.users ≡ s.db.users
      → (get_current_user crypto now token s).0 ≡ ok u
      → (get_current_user crypto now token t).0 ≡ ok u
  unfolding get_current_user get_user
  current_user-again t same h =
      let row = λ (id : ℕ) (users : sql.Table User).
        scalar_one_or_none (select_where sql (has_user_id id) users) in
      elim (result-cases (token_user_id crypto now token)) [
        | inl (id, e) ↦ elim (result-cases (row id s.db.users)) [
          | inl (found, f) ↦
              let f' : row id t.db.users ≡ ok found = rw same f in ground (arith, e, f, f', h)
          | inr (x, f) ↦ absurd (ground (arith, e, f, h))
        ]
        | inr (x, e) ↦ absurd (ground (arith, e, h))
      ]

module _ {sql : Sql} {redis : Redis} (out : Outside) (given : Given) {s t : Server sql redis} where
  -- From intact and committed tables, whatever has happened to a process: who creates a room by a
  -- request with an access token is known by the token in the next request too, and is shown the
  -- room as the answer told it, with that one member.
  pub created_room_shown :
      History out given s t
      → IsIntact sql s.process.backend.db
      → s.process.backend.db ≡ s.process.backend.committed
      → (now : ℕ) (token : Text) (owner : User)
      → (get_current_user given.crypto now token t.process.backend).0 ≡ ok owner
      → (f₁ f₂ : Fresh) (body : RoomCreate) (a : RoomResponse)
      → (create_room_endpoint f₁ f₂ body owner t.process.backend).0 ≡ ok a
      → let b = (create_room_endpoint f₁ f₂ body owner t.process.backend).1 in
        ((get_current_user given.crypto now token b).0 ≡ ok owner)
        × (get_room a.id owner b ≡ (ok (record { base = a; members = user_public owner ∷ [] }), b))
  created_room_shown history intact committed now token owner known f₁ f₂ body a created =
      let b = t.process.backend in
      let now_intact = (History-IsIntact out given history intact committed).0 in
      (
        current_user-again given.crypto now token owner b _
            (create_room_endpoint-users f₁ f₂ body owner b) known,
        create_room_endpoint-get_room f₁ f₂ body owner b a (λ r h. now_intact.members.room.at r h)
            (current_user-row given.crypto now token owner b known) created,
      )
