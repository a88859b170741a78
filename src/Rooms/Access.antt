-- ===== src/Rooms/Access.antt =====
-- Who may join a room, leave it and see it, by app/services/room_service.py.
use fastapi_realtime_chat.Prelude.{
  ℕ, ◌≡◌, ◌⊎◌, true, false, ◌&&◌, Option, some, List, arith, nat_beq, if◌then◌else◌, nat_eq,
  text_eq,
}
use fastapi_realtime_chat.Exec.{Error, ok, err}
use fastapi_realtime_chat.Sql.{Sql}
use fastapi_realtime_chat.Redis.{Redis}
use fastapi_realtime_chat.Models.{User, ChatRoom, RoomMember, Fresh}
use fastapi_realtime_chat.Backend.{Backend}
use fastapi_realtime_chat.Rooms.{
  add_member, remove_member, get_by_id, member_fits, new_member, is_public, get_with_members,
}
use fastapi_realtime_chat.RoomService.{is_direct, join_room, leave_room, get_room_detail}
use fastapi_realtime_chat.Rooms.Membership.{members_of, is_member_lem, members_of-remove_member}

module _ {sql : Sql} {redis : Redis} where
  -- Any user who is not in a room may join it if it is no direct-message room and the new row fits:
  -- a private room is open to all.
  pub join_room_open :
      (fresh : Fresh) (r : ℕ) (user : User) (s : Backend sql redis) (room : ChatRoom)
      → get_by_id r s ≡ (ok (some room), s)
      → is_direct room.room_type ≡ false
      → members_of r user.id s.db ≡ 0
      → member_fits (new_member fresh r user.id false) s.db ≡ true
      → (join_room fresh r user s).0 ≡ ok (new_member fresh r user.id false)
  unfolding join_room get_by_id add_member
  join_room_open fresh r user s room e open_room absent fits =
      ground (arith, is_member_lem r user.id s)

  leave-ok :
      (r u : ℕ) (s : Backend sql redis)
      → (leave_room r u s).0 ≡ ok tt
      → (members_of r u s.db ≡ 1) × (leave_room r u s ≡ remove_member r u s)
  unfolding leave_room get_by_id
  leave-ok r u s h = ground (arith, is_member_lem r u s)

  -- A successful `leave_room` was by a member, who then is none; every other membership is as
  -- before.
  pub leave_room-leaves :
      (r u : ℕ) (s : Backend sql redis)
      → (leave_room r u s).0 ≡ ok tt
      → (members_of r u s.db ≡ 1)
        × ((r' u' : ℕ)
            → members_of r' u' (leave_room r u s).1.db
              ≡ (if nat_beq r r' && nat_beq u u' then 0 else members_of r' u' s.db))
  leave_room-leaves r u s h =
      let (one, same) = leave-ok r u s h in
      (one, λ r' u'. rw same (members_of-remove_member r u s r' u'))

  -- A leave that raises leaves the tables as they were.
  pub leave_room_err :
      (r u : ℕ) (s : Backend sql redis) (e : Error)
      → (leave_room r u s).0 ≡ err e
      → (leave_room r u s).1 ≡ s
  unfolding leave_room get_by_id remove_member
  leave_room_err r u s e h = ground (arith, is_member_lem r u s)

  -- A room that is not public is shown to its members only, and showing a room changes nothing.
  pub get_room_detail_private :
      (r u : ℕ) (s : Backend sql redis) (d : ChatRoom × List (RoomMember × Option User))
      → (get_room_detail r u s).0 ≡ ok d
      → ((is_public d.0.room_type ≡ true) ⊎ (members_of r u s.db ≡ 1))
        × ((get_room_detail r u s).1 ≡ s)
  unfolding get_room_detail get_with_members get_by_id
  get_room_detail_private r u s d h = ground (arith, is_member_lem r u s)
