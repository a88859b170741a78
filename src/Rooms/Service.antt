-- ===== src/Rooms/Service.antt =====
-- `join_room` and `leave_room` of app/services/room_service.py.
use fastapi_realtime_chat.Prelude.{
  ℕ, ◌+◌, ◌≤◌, ◌≡◌, refl, ◌∙◌, inl, inr, false, ◌&&◌, some, arith, nat_beq, if◌then◌else◌, codes,
  nat_eq, text_eq,
}
use fastapi_realtime_chat.Exec.{Error, conflict_error, ok, err}
use fastapi_realtime_chat.Sql.{Sql, select_where, count_where}
use fastapi_realtime_chat.Redis.{Redis}
use fastapi_realtime_chat.Models.{User, ChatRoom, RoomMember, Fresh}
use fastapi_realtime_chat.Backend.{Db, Backend, scalar_one_or_none, row-cases, result-cases}
use fastapi_realtime_chat.Rooms.{in_room, has_room_id, add_member, remove_member, get_by_id}
use fastapi_realtime_chat.RoomService.{is_direct, join_room, leave_room}
use fastapi_realtime_chat.Rooms.Membership.{
  members_of, is_member_lem, members_of-add_member, count-add_member, add_member_err,
  add_member_rooms, members_of-remove_member,
}

-- The unique constraint `uq_room_member`.
abbrev pub IsUnique : {sql : Sql} → Db sql → Type 0
IsUnique db = (r u : ℕ) → members_of r u db ≤ 1

module _ {sql : Sql} {redis : Redis} where
  module _ (fresh : Fresh) (r : ℕ) (user : User) (s : Backend sql redis) where
    pub join-ok :
        (m : RoomMember)
        → (join_room fresh r user s).0 ≡ ok m
        → (members_of r user.id s.db ≡ 0)
          × (join_room fresh r user s ≡ add_member fresh r user.id false s)
          × (room : ChatRoom) × (get_by_id r s ≡ (ok (some room), s))
          × (is_direct room.room_type ≡ false)
    unfolding join_room get_by_id
    join-ok m h =
        elim (row-cases (scalar_one_or_none (select_where sql (has_room_id r) s.db.rooms))) [
          | inl (room, e) ↦ (
            ground (arith, is_member_lem r user.id s),
            ground (arith, is_member_lem r user.id s),
            room,
            ground arith,
            ground (arith, is_member_lem r user.id s),
          )
          | inr (inl e) ↦ absurd (ground arith)
          | inr (inr (x, e)) ↦ absurd (ground arith)
        ]

    -- A successful `join_room` was of a room that exists and is no direct-message room, by a user
    -- who was not in it; it makes the user one member, one more, and changes no other membership.
    pub join_room-joins :
        (m : RoomMember)
        → (join_room fresh r user s).0 ≡ ok m
        → ((room : ChatRoom) × (get_by_id r s ≡ (ok (some room), s))
            × (is_direct room.room_type ≡ false))
          × (members_of r user.id s.db ≡ 0)
          × ((r' u' : ℕ)
              → members_of r' u' (join_room fresh r user s).1.db
                ≡ (if nat_beq r r' && nat_beq user.id u' then 1 else members_of r' u' s.db))
          × (count_where sql (in_room r) (join_room fresh r user s).1.db.members
              ≡ count_where sql (in_room r) s.db.members + 1)
    join_room-joins m h =
        let (absent, same, room, found_room, open_room) = join-ok m h in
        let added : (add_member fresh r user.id false s).0 ≡ ok m = rw same at h in
        (
          (room, found_room, open_room),
          absent,
          λ r' u'. rw same (members_of-add_member fresh r user.id false s m added r' u'),
          rw same (ground (arith, count-add_member fresh r user.id false s m added (in_room r))),
        )

    -- Who joined cannot join again: that is a conflict, and changes nothing.
    pub join_room_again :
        (m : RoomMember)
        → (join_room fresh r user s).0 ≡ ok m
        → (fresh' : Fresh)
        → join_room fresh' r user (join_room fresh r user s).1 ≡ (
          err (conflict_error (codes "Already a member of this room")),
          (join_room fresh r user s).1,
        )
    join_room_again m h fresh' =
        let (absent, same, room, found_room, open_room) = join-ok m h in
        let added : (add_member fresh r user.id false s).0 ≡ ok m = rw same at h in
        let s' = (add_member fresh r user.id false s).1 in
        let one : members_of r user.id s'.db ≡ 1 =
          members_of-add_member fresh r user.id false s m added r user.id ∙ ground arith in
        rw same (
          unfold join_room get_by_id in
          ground (
            arith,
            one,
            is_member_lem r user.id s',
            add_member_rooms fresh r user.id false s,
            found_room,
          ))

    -- `leave_room` undoes a successful `join_room`: it succeeds, and every user is in every room
    -- as often as before.
    pub join_room-leave_room :
        (m : RoomMember)
        → (join_room fresh r user s).0 ≡ ok m
        → ((leave_room r user.id (join_room fresh r user s).1).0 ≡ ok tt)
          × ((r' u' : ℕ)
              → members_of r' u' (leave_room r user.id (join_room fresh r user s).1).1.db
                ≡ members_of r' u' s.db)
    join_room-leave_room m h =
        let (absent, same, room, found_room, open_room) = join-ok m h in
        let added : (add_member fresh r user.id false s).0 ≡ ok m = rw same at h in
        let s' = (add_member fresh r user.id false s).1 in
        let one : members_of r user.id s'.db ≡ 1 =
          members_of-add_member fresh r user.id false s m added r user.id ∙ ground arith in
        let rooms = add_member_rooms fresh r user.id false s in
        let left : leave_room r user.id s' ≡ remove_member r user.id s' =
          unfold leave_room get_by_id in
          ground (arith, one, is_member_lem r user.id s', rooms, found_room) in
        (
          rw (same, left) (unfold remove_member in refl),
          λ r' u'.
              rw (same, left)
                (ground (
                  arith,
                  absent,
                  members_of-remove_member r user.id s' r' u',
                  members_of-add_member fresh r user.id false s m added r' u',
                )),
        )

    -- A join that raises leaves the tables as they were.
    pub join_room_err :
        (e : Error) → (join_room fresh r user s).0 ≡ err e → (join_room fresh r user s).1 ≡ s
    unfolding join_room get_by_id
    join_room_err e h =
        ground (arith, is_member_lem r user.id s, add_member_err fresh r user.id false s e)

    -- `join_room`, whatever its result, keeps it so that no user is twice in a room.
    pub join_room-IsUnique : IsUnique s.db → IsUnique (join_room fresh r user s).1.db
    join_room-IsUnique h r' u' = elim (result-cases (join_room fresh r user s).0) [
      | inl (m, e) ↦ ground (arith, (join_room-joins m e).2 r' u', h r' u')
      | inr (e, f) ↦ rw (join_room_err e f) (h r' u')
    ]
