-- ===== src/Models.antt =====
-- The rows of app/models. Identifiers are UUIDs, as numbers; times are numbers too. The column
-- `updated_at`, which no code reads, is left out.
use native.Mathlib.Decide.{ℕ_discrete}
use fastapi_realtime_chat.Prelude.{ℕ, Bool, Option, Text, nat_eq, text_eq}

pub data UserRole : Type 0 where
  user admin : UserRole

pub record User : Type 0 where
  pub id : ℕ
  pub username : Text
  pub email : Text
  pub hashed_password : Text
  pub display_name : Option Text
  pub avatar_url : Option Text
  pub role : UserRole
  pub is_active : Bool
  pub last_seen : Option ℕ
  pub created_at : ℕ

pub data RoomType : Type 0 where
  public private direct : RoomType

pub record ChatRoom : Type 0 where
  pub id : ℕ
  pub name : Text
  pub description : Option Text
  pub room_type : RoomType
  pub is_active : Bool
  pub owner_id : Option ℕ
  pub created_at : ℕ

pub record RoomMember : Type 0 where
  pub id : ℕ
  pub room_id : ℕ
  pub user_id : ℕ
  pub is_admin : Bool
  pub created_at : ℕ

pub record Message : Type 0 where
  pub id : ℕ
  pub room_id : ℕ
  pub sender_id : Option ℕ
  pub content : Option Text
  pub image_url : Option Text
  pub is_deleted : Bool
  pub created_at : ℕ

pub record MessageReadReceipt : Type 0 where
  pub id : ℕ
  pub message_id : ℕ
  pub user_id : ℕ
  pub created_at : ℕ

pub data NotificationType : Type 0 where
  message mention room_invite system : NotificationType

pub record Notification : Type 0 where
  pub id : ℕ
  pub recipient_id : ℕ
  pub actor_id : Option ℕ
  pub notification_type : NotificationType
  pub content : Text
  pub room_id : Option ℕ
  pub message_id : Option ℕ
  pub is_read : Bool
  pub created_at : ℕ

pub record RefreshToken : Type 0 where
  pub id : ℕ
  pub user_id : ℕ
  pub token_hash : Text
  pub expires_at : ℕ
  pub is_revoked : Bool
  pub created_at : ℕ

-- The defaults of a new row: `uuid.uuid4()` and the server's `now()`.
pub record Fresh : Type 0 where
  pub id : ℕ
  pub now : ℕ

pub Message-discrete : Discrete Message
Message-discrete = hlevel ℕ_discrete

pub User-discrete : Discrete User
User-discrete = hlevel ℕ_discrete

pub ChatRoom-discrete : Discrete ChatRoom
ChatRoom-discrete = hlevel ℕ_discrete

pub RoomMember-discrete : Discrete RoomMember
RoomMember-discrete = hlevel ℕ_discrete
