-- ===== src/Responses.antt =====
-- The answers of the HTTP endpoints, from the rows: app/schemas/room.py and app/schemas/user.py.
use fastapi_realtime_chat.Prelude.{
  ℕ, Bool, Option, none, some, List, [], ◌∷◌, Text, nat_eq, text_eq, count,
}
use fastapi_realtime_chat.Models.{User, UserRole, ChatRoom, RoomMember, RoomType}

-- app/schemas/room.py
pub record RoomResponse : Type 0 where
  pub id : ℕ
  pub name : Text
  pub description : Option Text
  pub room_type : RoomType
  pub is_active : Bool
  pub owner_id : Option ℕ
  pub created_at : ℕ
  pub member_count : ℕ

abbrev pub room_response : ChatRoom → ℕ → RoomResponse
room_response room count = record {
  id = room.id;
  name = room.name;
  description = room.description;
  room_type = room.room_type;
  is_active = room.is_active;
  owner_id = room.owner_id;
  created_at = room.created_at;
  member_count = count;
}

-- app/schemas/user.py
pub record UserPublic : Type 0 where
  pub id : ℕ
  pub username : Text
  pub display_name : Option Text
  pub avatar_url : Option Text
  pub last_seen : Option ℕ

pub record RoomDetail : Type 0 where
  pub base : RoomResponse
  pub members : List UserPublic

abbrev pub user_public : User → UserPublic
user_public u = record {
  id = u.id;
  username = u.username;
  display_name = u.display_name;
  avatar_url = u.avatar_url;
  last_seen = u.last_seen;
}

pub record UserResponse : Type 0 where
  pub id : ℕ
  pub username : Text
  pub email : Text
  pub display_name : Option Text
  pub avatar_url : Option Text
  pub role : UserRole
  pub is_active : Bool
  pub last_seen : Option ℕ
  pub created_at : ℕ

-- `UserResponse.model_validate(user)`
abbrev pub user_response : User → UserResponse
user_response u = record {
  id = u.id;
  username = u.username;
  email = u.email;
  display_name = u.display_name;
  avatar_url = u.avatar_url;
  role = u.role;
  is_active = u.is_active;
  last_seen = u.last_seen;
  created_at = u.created_at;
}

-- The users of the memberships that have one.
abbrev pub members_public : List (RoomMember × Option User) → List UserPublic
members_public [] = []
members_public ((m, none) ∷ rows) = members_public rows
members_public ((m, some u) ∷ rows) = user_public u ∷ members_public rows
