-- ===== src/Rooms/Creation.antt =====
-- `create_room` of app/services/room_service.py.
use fastapi_realtime_chat.Prelude.{
  ℕ, ◌≡◌, true, ◌&&◌, arith, nat_beq, if◌then◌else◌, nat_eq, text_eq,
}
use fastapi_realtime_chat.Exec.{Result, ok, pure, >>=-ok}
use fastapi_realtime_chat.Sql.{Sql, count_where}
use fastapi_realtime_chat.Sql.Counting.{count_mono}
use fastapi_realtime_chat.Redis.{Redis}
use fastapi_realtime_chat.Models.{User, ChatRoom, RoomMember, Fresh}
use fastapi_realtime_chat.Backend.{Db, Backend}
use fastapi_realtime_chat.Rooms.{
  RoomCreate, membership, in_room, has_room_id, add_member, room_fits, new_room, insert_room,
}
use fastapi_realtime_chat.RoomService.{create_room}
use fastapi_realtime_chat.Rooms.Membership.{
  members_of, members_of-add_member, count-add_member, add_member_rooms,
}

-- What the foreign key of the memberships gives: a room that is not there has no members.
abbrev pub NoOrphans : {sql : Sql} → Db sql → Type 0
NoOrphans {sql} db =
    (r : ℕ)
    → count_where sql (has_room_id r) db.rooms ≡ 0
    → count_where sql (in_room r) db.members ≡ 0

module _ {sql : Sql} {redis : Redis} where
  insert_room-ok :
      (fresh : Fresh) (request : RoomCreate) (owner_id : ℕ) (s : Backend sql redis)
      (room : ChatRoom)
      → (insert_room fresh request owner_id s).0 ≡ ok room
      → (room ≡ new_room fresh request owner_id)
        × (count_where sql (has_room_id fresh.id) s.db.rooms ≡ 0)
        × ((insert_room fresh request owner_id s).1.db.members ≡ s.db.members)
        × ((insert_room fresh request owner_id s).1.db.rooms
            ≡ sql.insert ChatRoom (new_room fresh request owner_id) s.db.rooms)
  unfolding insert_room room_fits
  insert_room-ok fresh request owner_id s room h = ground arith

  module _ (f₁ f₂ : Fresh) (request : RoomCreate) (owner : User) (s : Backend sql redis) where
    abbrev inserted : Result ChatRoom × Backend sql redis
    inserted = insert_room f₁ request owner.id s

    create-ok :
        (room : ChatRoom)
        → (create_room f₁ f₂ request owner s).0 ≡ ok room
        → (inserted.0 ≡ ok room)
          × ((m : RoomMember) × ((add_member f₂ room.id owner.id true inserted.1).0 ≡ ok m))
          × ((create_room f₁ f₂ request owner s).1
              ≡ (add_member f₂ room.id owner.id true inserted.1).1)
    unfolding create_room
    create-ok room h =
        let (room', e, same) = >>=-ok (insert_room f₁ request owner.id) _ s room h in
        let (m, e', same') =
          >>=-ok (add_member f₂ room'.id owner.id true) (λ _. pure room') inserted.1 room
            (rw same at h) in
        let eq : room' ≡ room = ground arith in (ground arith, (m, ground arith), ground arith)

    -- Where no membership is of a room that does not exist, a successful `create_room` enters the
    -- room as asked for, once, with the creator as its one member, who is an admin; it changes no
    -- other membership.
    pub create_room-creates :
        (room : ChatRoom)
        → NoOrphans s.db
        → (create_room f₁ f₂ request owner s).0 ≡ ok room
        → let after = (create_room f₁ f₂ request owner s).1.db in
          (room ≡ new_room f₁ request owner.id)
          × (count_where sql (has_room_id room.id) after.rooms ≡ 1)
          × (count_where sql (in_room room.id) after.members ≡ 1)
          × (count_where sql (λ m. membership room.id owner.id m && m.is_admin) after.members ≡ 1)
          × ((r' u' : ℕ)
              → members_of r' u' after
                ≡ (if nat_beq room.id r' && nat_beq owner.id u' then 1 else members_of r' u' s.db))
    create_room-creates room orphans h =
        let (e, (m, added), same) = create-ok room h in
        let (is_new, absent, members, rooms) = insert_room-ok f₁ request owner.id s room e in
        let s' = inserted.1 in
        let id_eq : room.id ≡ f₁.id = ground arith in
        let admin = λ (m : RoomMember). membership room.id owner.id m && m.is_admin in
        let none_in : count_where sql (in_room room.id) s'.db.members ≡ 0 =
          rw (members, id_eq) (orphans f₁.id absent) in
        let no_admin : count_where sql admin s'.db.members ≡ 0 = omega (
          arith,
          count_mono admin (in_room room.id) (sql.scan RoomMember s'.db.members)
              (λ x q. ground arith),
          none_in,
        ) in
        (
          is_new,
          rw (same, add_member_rooms f₂ room.id owner.id true s', rooms)
              (ground (
                arith,
                sql.count-insert ChatRoom (has_room_id room.id) (new_room f₁ request owner.id)
                    s.db.rooms,
              )),
          rw same (
              ground
                (arith, count-add_member f₂ room.id owner.id true s' m added (in_room room.id))),
          rw same (ground (arith, count-add_member f₂ room.id owner.id true s' m added admin)),
          λ r' u'.
              rw same
                (ground (arith, members_of-add_member f₂ room.id owner.id true s' m added r' u')),
        )
