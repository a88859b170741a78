-- ===== src/Api/Race.antt =====
-- Two requests to join a room at the same time: app/api/v1/endpoints/rooms.py.
use fastapi_realtime_chat.Prelude.{ℕ, ◌≡◌, ◌∙◌, false, arith, nat_beq_iff, nat_eq, text_eq}
use fastapi_realtime_chat.Exec.{ok, err, integrity_error}
use fastapi_realtime_chat.Sql.{Sql}
use fastapi_realtime_chat.Redis.{Redis}
use fastapi_realtime_chat.Models.{User, RoomMember, Fresh}
use fastapi_realtime_chat.Backend.{Backend, commit}
use fastapi_realtime_chat.Rooms.{member_fits, add_member, new_member}
use fastapi_realtime_chat.RoomService.{join_room}
use fastapi_realtime_chat.Rooms.Membership.{members_of, members_of-add_member}
use fastapi_realtime_chat.Rooms.Service.{join-ok}
use fastapi_realtime_chat.Api.{get_db, except, join_error}

module _ {sql : Sql} {redis : Redis} where
  -- A second request of the same user to join the room, whose checks were made before the first one
  -- was committed, and whose insertion comes after: the unique constraint refuses it, and since the
  -- endpoint does not catch that error, it is no conflict. The user is a member once, and nothing
  -- of the second request is left.
  pub join_race :
      (first second : Fresh) (r : ℕ) (user : User) (s : Backend sql redis) (m : RoomMember)
      → (join_room first r user s).0 ≡ ok m
      → let s' = (commit (join_room first r user s).1).1 in
        (get_db (except join_error (add_member second r user.id false)) s'
          ≡ (err integrity_error, s'))
        × (members_of r user.id s'.db ≡ 1)
  unfolding get_db
  join_race first second r user s m h =
      let same = (join-ok first r user s m h).1 in
      let added : (add_member first r user.id false s).0 ≡ ok m = rw same at h in
      let one = members_of-add_member first r user.id false s m added r user.id in
      let once : members_of r user.id (join_room first r user s).1.db ≡ 1 =
        rw same (one ∙ ground (arith, nat_beq_iff r r)) in
      let refused : member_fits (new_member second r user.id false) (join_room first r user s).1.db
          ≡ false =
        unfold member_fits in ground (arith, once) in
      (unfold add_member in ground (arith, refused), once)
