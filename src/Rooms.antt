-- ===== src/Rooms.antt =====
-- Rooms and their members: app/repositories/room_repo.py.
pub mod Membership
pub mod Service
pub mod Access
pub mod Creation
use fastapi_realtime_chat.Prelude.{
  ℕ, ℤ, Bool, true, false, ◌&&◌, Option, none, some, List, [], ◌∷◌, ◌++◌, map, ltb, nat_beq,
  if◌then◌else◌, is_some, Text, nat_eq, text_eq, take, drop, filter,
}
use mathlib.Core.List.{head?}
use fastapi_realtime_chat.Exec.{integrity_error, ok, err, Exec, pure, gets, lift, ◌>>=◌, ◌>>◌}
use fastapi_realtime_chat.Sql.{Sql, select_where, count_where}
use fastapi_realtime_chat.Redis.{Redis}
use fastapi_realtime_chat.Models.{
  User, ChatRoom, RoomType, public, private, direct, RoomMember, Fresh,
}
use fastapi_realtime_chat.Backend.{Db, Backend, row_number, scalar_one_or_none}

-- app/schemas/room.py
pub record RoomCreate : Type 0 where
  pub name : Text
  pub description : Option Text
  pub room_type : RoomType

-- The conditions of the queries.
abbrev pub membership : (room_id user_id : ℕ) → RoomMember → Bool
membership room_id user_id m = nat_beq m.room_id room_id && nat_beq m.user_id user_id

abbrev pub in_room : ℕ → RoomMember → Bool
in_room room_id m = nat_beq m.room_id room_id

abbrev pub has_room_id : ℕ → ChatRoom → Bool
has_room_id id room = nat_beq room.id id

abbrev pub has_user_id : ℕ → User → Bool
has_user_id id user = nat_beq user.id id

abbrev pub is_public : RoomType → Bool
is_public public = true
is_public private = false
is_public direct = false

-- The join of rooms and memberships.
abbrev pub joined_rooms : ℕ → List ChatRoom → List RoomMember → List ChatRoom
joined_rooms user_id [] members = []
joined_rooms user_id (room ∷ rooms) members =
    map (λ _. room) (filter (membership room.id user_id) members)
    ++ joined_rooms user_id rooms members

-- `ChatRoom(name=…, description=…, room_type=…, owner_id=…)`
abbrev pub new_room : Fresh → RoomCreate → (owner_id : ℕ) → ChatRoom
new_room fresh request owner_id = record {
  id = fresh.id;
  name = request.name;
  description = request.description;
  room_type = request.room_type;
  is_active = true;
  owner_id = some owner_id;
  created_at = fresh.now;
}

-- `RoomMember(room_id=…, user_id=…, is_admin=…)`
abbrev pub new_member : Fresh → (room_id user_id : ℕ) → (is_admin : Bool) → RoomMember
new_member fresh room_id user_id is_admin = record {
  id = fresh.id;
  room_id = room_id;
  user_id = user_id;
  is_admin = is_admin;
  created_at = fresh.now;
}

abbrev pub with_users : List User → List RoomMember → List (RoomMember × Option User)
with_users users [] = []
with_users users (m ∷ ms) = (m, head? (filter (has_user_id m.user_id) users)) ∷ with_users users ms

module _ {sql : Sql} where
  abbrev pub load_members :
      Db sql → Option ChatRoom → Option (ChatRoom × List (RoomMember × Option User))
  load_members db none = none
  load_members db (some room) =
      some
        (room, with_users (sql.scan User db.users) (select_where sql (in_room room.id) db.members))

  -- The constraints of the table `room_members`.
  unfoldable pub member_fits : RoomMember → Db sql → Bool
  member_fits m db =
      nat_beq (count_where sql (λ o. nat_beq o.id m.id) db.members) 0
      && nat_beq (count_where sql (membership m.room_id m.user_id) db.members) 0
      && ltb 0 (count_where sql (has_room_id m.room_id) db.rooms)
      && ltb 0 (count_where sql (has_user_id m.user_id) db.users)

  unfoldable pub room_fits : ChatRoom → ℕ → Db sql → Bool
  room_fits room owner_id db =
      nat_beq (count_where sql (has_room_id room.id) db.rooms) 0
      && ltb 0 (count_where sql (has_user_id owner_id) db.users)

module _ {sql : Sql} {redis : Redis} where
  unfoldable pub get_member : (room_id user_id : ℕ) → Exec (Backend sql redis) (Option RoomMember)
  get_member room_id user_id s =
      (scalar_one_or_none (select_where sql (membership room_id user_id) s.db.members), s)

  unfoldable pub is_member : (room_id user_id : ℕ) → Exec (Backend sql redis) Bool
  is_member room_id user_id = do member ← get_member room_id user_id; pure (is_some member)

  unfoldable pub add_member :
      Fresh → (room_id user_id : ℕ) → (is_admin : Bool) → Exec (Backend sql redis) RoomMember
  add_member fresh room_id user_id is_admin s =
      let member = new_member fresh room_id user_id is_admin in
      if member_fits member s.db
      then (
        ok member,
        record s { db = record s.db { members = sql.insert RoomMember member s.db.members } },
      )
      else (err integrity_error, s)

  unfoldable pub remove_member : (room_id user_id : ℕ) → Exec (Backend sql redis) (Unit {0})
  remove_member room_id user_id s = (
    ok tt,
    record s {
      db = record s.db {
        members = sql.delete RoomMember (membership room_id user_id) s.db.members;
      };
    },
  )

  unfoldable pub member_count : (room_id : ℕ) → Exec (Backend sql redis) ℕ
  member_count room_id s = (ok (count_where sql (in_room room_id) s.db.members), s)

  unfoldable pub get_by_id : (room_id : ℕ) → Exec (Backend sql redis) (Option ChatRoom)
  get_by_id room_id s = (scalar_one_or_none (select_where sql (has_room_id room_id) s.db.rooms), s)

  unfoldable pub get_public_rooms : (limit offset : ℤ) → Exec (Backend sql redis) (List ChatRoom)
  get_public_rooms limit offset = do
    limit ← lift (row_number limit)
    offset ← lift (row_number offset)
    gets (λ s. take limit (
        drop offset
          (select_where sql (λ room. is_public room.room_type && room.is_active) s.db.rooms)))

  unfoldable pub get_user_rooms : (user_id : ℕ) → Exec (Backend sql redis) (List ChatRoom)
  get_user_rooms user_id s = (
    ok (
        joined_rooms user_id (select_where sql (λ room. room.is_active) s.db.rooms)
          (sql.scan RoomMember s.db.members)),
    s,
  )

  -- `create` of the base repository, at a room.
  unfoldable pub insert_room : Fresh → RoomCreate → ℕ → Exec (Backend sql redis) ChatRoom
  insert_room fresh request owner_id s =
      let room = new_room fresh request owner_id in
      if room_fits room owner_id s.db
      then (ok room, record s { db = record s.db { rooms = sql.insert ChatRoom room s.db.rooms } })
      else (err integrity_error, s)

  -- `get_with_members`: the room, with its memberships and their users loaded.
  unfoldable pub get_with_members :
      (room_id : ℕ) → Exec (Backend sql redis) (Option (ChatRoom × List (RoomMember × Option User)))
  get_with_members room_id = do room ← get_by_id room_id; gets (λ s. load_members s.db room)
