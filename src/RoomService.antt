-- ===== src/RoomService.antt =====
-- What users do with rooms: app/services/room_service.py. Its get_public_rooms, get_user_rooms and
-- member_count are those of the repository.
use fastapi_realtime_chat.Prelude.{
  ℕ, Bool, true, false, not, Option, none, some, List, if◌then◌else◌, codes, nat_eq, text_eq,
}
use fastapi_realtime_chat.Exec.{
  authorization_error, not_found_error, conflict_error, Exec, pure, raise, guard, ◌>>=◌, ◌>>◌,
}
use fastapi_realtime_chat.Sql.{Sql}
use fastapi_realtime_chat.Redis.{Redis}
use fastapi_realtime_chat.Models.{
  User, ChatRoom, RoomType, public, private, direct, RoomMember, Fresh,
}
use fastapi_realtime_chat.Backend.{Backend}
use fastapi_realtime_chat.Rooms.{
  RoomCreate, is_public, is_member, add_member, remove_member, get_by_id, get_with_members,
  insert_room,
}

abbrev pub is_direct : RoomType → Bool
is_direct public = false
is_direct private = false
is_direct direct = true

module _ {sql : Sql} {redis : Redis} where
  unfoldable pub create_room :
      (room_fresh member_fresh : Fresh) → RoomCreate → User → Exec (Backend sql redis) ChatRoom
  create_room room_fresh member_fresh request owner = do
    room ← insert_room room_fresh request owner.id
    add_member member_fresh room.id owner.id true
    pure room

  -- `if not room: raise NotFoundError("Room")`
  abbrev pub require_room : Option ChatRoom → Exec (Backend sql redis) ChatRoom
  require_room none = raise (not_found_error (codes "Room"))
  require_room (some room) = pure room

  unfoldable pub assert_membership : (room_id user_id : ℕ) → Exec (Backend sql redis) (Unit {0})
  assert_membership room_id user_id = do
    member ← is_member room_id user_id
    guard member (authorization_error (codes "You are not a member of this room"))

  abbrev pub require_detail :
      Option (ChatRoom × List (RoomMember × Option User))
      → Exec (Backend sql redis) (ChatRoom × List (RoomMember × Option User))
  require_detail none = raise (not_found_error (codes "Room"))
  require_detail (some room) = pure room

  -- Only a member sees a room that is not public.
  unfoldable pub get_room_detail :
      (room_id user_id : ℕ) → Exec (Backend sql redis) (ChatRoom × List (RoomMember × Option User))
  get_room_detail room_id user_id = do
    found ← get_with_members room_id
    room ← require_detail found
    if is_public room.0.room_type then pure room else do
      member ← is_member room_id user_id
      guard member (authorization_error (codes "You are not a member of this room"))
      pure room

  unfoldable pub join_room : Fresh → (room_id : ℕ) → User → Exec (Backend sql redis) RoomMember
  join_room fresh room_id user = do
    found ← get_by_id room_id
    room ← require_room found
    guard (not (is_direct room.room_type))
        (authorization_error (codes "Cannot join a direct message room"))
    member ← is_member room_id user.id
    guard (not member) (conflict_error (codes "Already a member of this room"))
    add_member fresh room_id user.id false

  unfoldable pub leave_room : (room_id user_id : ℕ) → Exec (Backend sql redis) (Unit {0})
  leave_room room_id user_id = do
    found ← get_by_id room_id
    require_room found
    member ← is_member room_id user_id
    guard member (conflict_error (codes "Not a member of this room"))
    remove_member room_id user_id
