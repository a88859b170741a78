-- ===== src/Api/NewRoom.antt =====
-- A room from `POST /rooms` to `GET /rooms/{room_id}`, of app/api/v1/endpoints/rooms.py.
use fastapi_realtime_chat.Prelude.{◌≡◌, ap, ◌∙◌, Bool, true, List, [], ◌∷◌, arith, nat_eq, text_eq}
use fastapi_realtime_chat.Exec.{ok}
use fastapi_realtime_chat.Sql.{Sql, select_where, count_where}
use fastapi_realtime_chat.Sql.Counting.{only_row, count_mono}
use fastapi_realtime_chat.Redis.{Redis}
use fastapi_realtime_chat.Models.{
  User, ChatRoom, ChatRoom-discrete, RoomMember, RoomMember-discrete, Fresh,
}
use fastapi_realtime_chat.Backend.{Backend, scalar_one}
use fastapi_realtime_chat.Rooms.{
  RoomCreate, membership, in_room, has_room_id, has_user_id, new_room, new_member, get_by_id,
  get_with_members, member_count, insert_room, room_fits, add_member,
}
use fastapi_realtime_chat.RoomService.{get_room_detail, create_room}
use fastapi_realtime_chat.Rooms.Membership.{members_of, is_member_lem}
use fastapi_realtime_chat.Rooms.Creation.{NoOrphans}
use fastapi_realtime_chat.Responses.{RoomResponse, room_response, user_public}
use fastapi_realtime_chat.Api.{create_room_endpoint, get_room}

one_row : {R : Type 0} (xs : List R) (r : R) → scalar_one xs ≡ ok r → xs ≡ r ∷ []
one_row [] r h = absurd (ground arith)
one_row (x ∷ []) r h = ground arith
one_row (x ∷ y ∷ xs) r h = absurd (ground arith)

-- A new row is the one that meets a condition, if no row met it before.
inserted_alone :
    (sql : Sql) {R : Type 0} (d : Discrete R) (p : R → Bool) (r : R) (t : sql.Table R)
    → p r ≡ true
    → count_where sql p t ≡ 0
    → select_where sql p (sql.insert R r t) ≡ r ∷ []
inserted_alone sql {R} d p r t h absent = one_row _ r (
    only_row d p r (sql.scan R t) (sql.scan R (sql.insert R r t)) (λ q. sql.count-insert R q r t) h
      absent)

module _ {sql : Sql} {redis : Redis} where
  -- A room whose one member is the user, as the tables have them.
  shown :
      (room : ChatRoom) (m : RoomMember) (u : User) (s : Backend sql redis)
      → select_where sql (has_room_id room.id) s.db.rooms ≡ room ∷ []
      → select_where sql (in_room room.id) s.db.members ≡ m ∷ []
      → select_where sql (has_user_id m.user_id) s.db.users ≡ u ∷ []
      → members_of room.id u.id s.db ≡ 1
      → get_room room.id u s
        ≡ (ok (record { base = room_response room 1; members = user_public u ∷ [] }), s)
  unfolding get_room get_room_detail get_with_members get_by_id
  shown room m u s rooms members users one = ground (arith, is_member_lem room.id u.id s)

  module _ (f₁ f₂ : Fresh) (request : RoomCreate) (owner : User) (s : Backend sql redis) where
    abbrev room : ChatRoom
    room = new_room f₁ request owner.id

    abbrev owned : RoomMember
    owned = new_member f₂ f₁.id owner.id true

    abbrev answer : RoomResponse
    answer = room_response room 1

    -- What a successful request writes.
    endpoint-ok :
        (a : RoomResponse)
        → (create_room_endpoint f₁ f₂ request owner s).0 ≡ ok a
        → let s' = (create_room_endpoint f₁ f₂ request owner s).1 in
          (a ≡ room_response room (count_where sql (in_room f₁.id) s'.db.members))
          × (count_where sql (has_room_id f₁.id) s.db.rooms ≡ 0)
          × (s'.db.rooms ≡ sql.insert ChatRoom room s.db.rooms)
          × (s'.db.members ≡ sql.insert RoomMember owned s.db.members)
          × (s'.db.users ≡ s.db.users)
    unfolding create_room_endpoint create_room insert_room room_fits add_member member_count
    endpoint-ok a h = ground arith

    -- No answer of the endpoint touches the users.
    pub create_room_endpoint-users :
        (create_room_endpoint f₁ f₂ request owner s).1.db.users ≡ s.db.users
    unfolding create_room_endpoint create_room insert_room room_fits add_member member_count
    create_room_endpoint-users = ground arith

    -- The creator, who is loaded from the tables, sees the new room as the answer to the request
    -- told it, with the creator as its one member, and whatever its type is.
    pub create_room_endpoint-get_room :
        (a : RoomResponse)
        → NoOrphans s.db
        → scalar_one (select_where sql (has_user_id owner.id) s.db.users) ≡ ok owner
        → (create_room_endpoint f₁ f₂ request owner s).0 ≡ ok a
        → let s' = (create_room_endpoint f₁ f₂ request owner s).1 in
          get_room a.id owner s' ≡ (ok (record { base = a; members = user_public owner ∷ [] }), s')
    create_room_endpoint-get_room a orphans known h =
        let s' = (create_room_endpoint f₁ f₂ request owner s).1 in
        let (told, absent, rooms, members, users) = endpoint-ok a h in
        let no_members = orphans f₁.id absent in
        let the_room : select_where sql (has_room_id f₁.id) s'.db.rooms ≡ room ∷ [] = rw rooms (
          inserted_alone sql ChatRoom-discrete (has_room_id f₁.id) room s.db.rooms (ground arith)
            absent) in
        let the_member : select_where sql (in_room f₁.id) s'.db.members ≡ owned ∷ [] = rw members (
          inserted_alone sql RoomMember-discrete (in_room f₁.id) owned s.db.members (ground arith)
            no_members) in
        let the_user : select_where sql (has_user_id owner.id) s'.db.users ≡ owner ∷ [] =
          rw users (one_row _ owner known) in
        let no_row : members_of f₁.id owner.id s.db ≡ 0 = omega (
          arith,
          count_mono (membership f₁.id owner.id) (in_room f₁.id) (sql.scan RoomMember s.db.members)
              (λ m q. ground arith),
          no_members,
        ) in
        let one : members_of f₁.id owner.id s'.db ≡ 1 = rw members (
          ground (
            arith,
            no_row,
            sql.count-insert RoomMember (membership f₁.id owner.id) owned s.db.members,
          )) in
        let counted : count_where sql (in_room f₁.id) s'.db.members ≡ 1 = rw members (
          ground
            (arith, no_members, sql.count-insert RoomMember (in_room f₁.id) owned s.db.members)) in
        let a_is : a ≡ answer = told ∙ ap (room_response room) counted in
        rw a_is (shown room owned owner s' the_room the_member the_user one)
