-- ===== src/Api/Atomic.antt =====
-- What a request to app/api/v1/endpoints commits.
use fastapi_realtime_chat.Prelude.{
  ℕ, ◌≡◌, inl, inr, Bool, true, false, arith, Text, nat_eq, text_eq,
}
use fastapi_realtime_chat.Exec.{Error, guard, written_if}
use fastapi_realtime_chat.Sql.{Sql}
use fastapi_realtime_chat.Redis.{Redis}
use fastapi_realtime_chat.Models.{User, Fresh}
use fastapi_realtime_chat.Backend.{Backend, result-cases}
use fastapi_realtime_chat.Rooms.{RoomCreate, insert_room, add_member, member_count}
use fastapi_realtime_chat.RoomService.{create_room}
use fastapi_realtime_chat.Security.{Crypto, TokenSettings}
use fastapi_realtime_chat.Users.{create_token, get_valid_token, revoke_token, revoke_where}
use fastapi_realtime_chat.Auth.{TokenDraws, issue_tokens, refresh}
use fastapi_realtime_chat.Presence.{default_ttl}
use fastapi_realtime_chat.Handlers.Frame.{Same-refl, Keeps, Keeps-pure, Keeps-lift, Keeps-bind}
use fastapi_realtime_chat.Api.{get_db, create_room_endpoint, refresh_endpoint}

module _ {sql : Sql} {redis : Redis} where
  Keeps-guard : (b : Bool) (e : Error) → Keeps {sql = sql} {redis = redis} default_ttl (guard b e)
  Keeps-guard true e = record { at = λ s. Same-refl default_ttl s }
  Keeps-guard false e = record { at = λ s. Same-refl default_ttl s }

  Keeps-insert_room :
      (fresh : Fresh) (request : RoomCreate) (owner : ℕ)
      → Keeps {sql = sql} {redis = redis} default_ttl (insert_room fresh request owner)
  unfolding insert_room
  Keeps-insert_room fresh request owner = record { at = λ s. ground arith }

  Keeps-add_member :
      (fresh : Fresh) (r u : ℕ) (a : Bool)
      → Keeps {sql = sql} {redis = redis} default_ttl (add_member fresh r u a)
  unfolding add_member
  Keeps-add_member fresh r u a = record { at = λ s. ground arith }

  Keeps-create_token :
      (fresh : Fresh) (u : ℕ) (h : Text) (expires_at : ℕ)
      → Keeps {sql = sql} {redis = redis} default_ttl (create_token fresh u h expires_at)
  unfolding create_token
  Keeps-create_token fresh u h expires_at = record { at = λ s. ground arith }

  Keeps-get_valid_token :
      (now : ℕ) (h : Text) → Keeps {sql = sql} {redis = redis} default_ttl (get_valid_token now h)
  unfolding get_valid_token
  Keeps-get_valid_token now h = record { at = λ s. ground arith }

  Keeps-revoke_token : (h : Text) → Keeps {sql = sql} {redis = redis} default_ttl (revoke_token h)
  unfolding revoke_token revoke_where
  Keeps-revoke_token h = record { at = λ s. ground arith }

ruleset keeps_rules = (
  Keeps-pure, Keeps-lift, Keeps-bind, Keeps-guard, Keeps-insert_room, Keeps-add_member,
  Keeps-create_token, Keeps-get_valid_token, Keeps-revoke_token,
)

module _ {sql : Sql} {redis : Redis} where
  Keeps-create_room :
      (f₁ f₂ : Fresh) (request : RoomCreate) (owner : User)
      → Keeps {sql = sql} {redis = redis} default_ttl (create_room f₁ f₂ request owner)
  unfolding create_room
  Keeps-create_room f₁ f₂ request owner = search keeps_rules

  -- A request for a new room commits the room together with the membership of its creator, or,
  -- whatever raises, leaves the tables as committed before.
  pub create_room_atomic :
      (f₁ f₂ : Fresh) (request : RoomCreate) (owner : User) (s : Backend sql redis)
      → let done = create_room f₁ f₂ request owner s in
        let s' = (get_db (create_room_endpoint f₁ f₂ request owner) s).1 in
        (s'.db ≡ s'.committed) × (s'.committed ≡ written_if done.0 done.1.db s.committed)
  unfolding get_db create_room_endpoint member_count
  create_room_atomic f₁ f₂ request owner s =
      let keeps = (Keeps-create_room f₁ f₂ request owner).at s in
      elim (result-cases (create_room f₁ f₂ request owner s).0) [
        | inl (room, e) ↦ (ground arith, ground arith)
        | inr (x, e) ↦ (ground arith, ground (arith, keeps.committed))
      ]

module _ {sql : Sql} {redis : Redis} (crypto : Crypto) (settings : TokenSettings) where
  Keeps-issue_tokens :
      (now : ℕ) (draws : TokenDraws) (u : ℕ)
      → Keeps {sql = sql} {redis = redis} default_ttl (issue_tokens crypto settings now draws u)
  unfolding issue_tokens
  Keeps-issue_tokens now draws u = search keeps_rules

  Keeps-refresh :
      (now : ℕ) (draws : TokenDraws) (token : Text)
      → Keeps {sql = sql} {redis = redis} default_ttl (refresh crypto settings now draws token)
  unfolding refresh
  Keeps-refresh now draws token = search (keeps_rules, Keeps-issue_tokens) depth 12

  -- A request for a rotation commits the revocation of the old token together with the new one, or,
  -- whatever raises, leaves the tables as committed before: the old token is not lost.
  pub refresh_atomic :
      (now : ℕ) (draws : TokenDraws) (token : Text) (s : Backend sql redis)
      → let done = refresh crypto settings now draws token s in
        let s' = (get_db (refresh_endpoint crypto settings now draws token) s).1 in
        (s'.db ≡ s'.committed) × (s'.committed ≡ written_if done.0 done.1.db s.committed)
  unfolding get_db refresh_endpoint
  refresh_atomic now draws token s =
      let keeps = (Keeps-refresh now draws token).at s in
      elim (result-cases (refresh crypto settings now draws token s).0) [
        | inl (pair, e) ↦ (ground arith, ground arith)
        | inr (x, e) ↦ (ground arith, ground (arith, keeps.committed))
      ]
