-- ===== src/Chat.antt =====
-- The chat service: app/services/chat_service.py, with its responses from app/schemas/message.py.
pub mod Sending
pub mod Reading
use mathlib.Core.List.{reverse}
use fastapi_realtime_chat.Prelude.{
  ℕ, ◌*◌, Bool, not, Option, none, some, List, ◌++◌, map, ltb, Text, codes, nat_eq, text_eq,
}
use fastapi_realtime_chat.Exec.{authorization_error, Exec, pure, guard, ◌>>=◌, ◌>>◌}
use fastapi_realtime_chat.Uuid
use fastapi_realtime_chat.Protocol.{ChatMessage, chat_message, message_read}
use fastapi_realtime_chat.Sql.{Sql}
use fastapi_realtime_chat.Redis.{Redis}
use fastapi_realtime_chat.Models.{User, Fresh}
use fastapi_realtime_chat.Backend.{Backend, publish}
use fastapi_realtime_chat.Messages.{
  LoadedMessage, get_room_messages, create_with_sender, mark_read, count_unread,
}
use fastapi_realtime_chat.Rooms.{is_member}

-- `_channel`
abbrev pub room_channel : Text → Text
room_channel room_id = codes "channel:room:" ++ room_id

-- app/schemas/message.py
pub record MessageResponse : Type 0 where
  pub id : ℕ
  pub room_id : ℕ
  pub sender_id : Option ℕ
  pub sender_username : Option Text
  pub sender_display_name : Option Text
  pub sender_avatar_url : Option Text
  pub content : Option Text
  pub image_url : Option Text
  pub is_deleted : Bool
  pub created_at : ℕ
  pub read_by : List Text

pub record PaginatedMessages : Type 0 where
  pub items : List MessageResponse
  pub total : ℕ
  pub page : ℕ
  pub page_size : ℕ
  pub has_next : Bool

abbrev pub sender_field : {A : Type 0} → A → (User → A) → Option User → A
sender_field missing field none = missing
sender_field missing field (some sender) = field sender

-- `str(msg.sender_id)`
abbrev pub str_or_none : Option ℕ → Text
str_or_none none = codes "None"
str_or_none (some id) = Uuid.str id

unfoldable pub message_to_ws : LoadedMessage → ChatMessage
message_to_ws msg = record {
  id = Uuid.str msg.row.id;
  room_id = Uuid.str msg.row.room_id;
  sender_id = str_or_none msg.row.sender_id;
  sender_username = sender_field (codes "deleted") (λ u. u.username) msg.sender;
  sender_display_name = sender_field none (λ u. u.display_name) msg.sender;
  sender_avatar_url = sender_field none (λ u. u.avatar_url) msg.sender;
  content = msg.row.content;
  image_url = msg.row.image_url;
  created_at = msg.row.created_at;
}

unfoldable pub message_to_response : LoadedMessage → MessageResponse
message_to_response msg = record {
  id = msg.row.id;
  room_id = msg.row.room_id;
  sender_id = msg.row.sender_id;
  sender_username = sender_field none (λ u. some u.username) msg.sender;
  sender_display_name = sender_field none (λ u. u.display_name) msg.sender;
  sender_avatar_url = sender_field none (λ u. u.avatar_url) msg.sender;
  content = msg.row.content;
  image_url = msg.row.image_url;
  is_deleted = msg.row.is_deleted;
  created_at = msg.row.created_at;
  read_by = map (λ r. Uuid.str r.user_id) msg.read_receipts;
}

module _ {sql : Sql} {redis : Redis} where
  -- `if not is_member: raise AuthorizationError(…)`
  unfoldable pub require_member : (room_id user_id : ℕ) → Exec (Backend sql redis) (Unit {0})
  require_member room_id user_id = do
    member ← is_member room_id user_id
    guard member (authorization_error (codes "You are not a member of this room"))

  unfoldable pub send_message :
      Fresh
      → (room_id sender_id : ℕ) → (content image_url : Option Text)
      → Exec (Backend sql redis) MessageResponse
  send_message fresh room_id sender_id content image_url = do
    require_member room_id sender_id
    msg ← create_with_sender fresh room_id sender_id content image_url
    publish (room_channel (Uuid.str room_id)) (chat_message (message_to_ws msg))
    pure (message_to_response msg)

  unfoldable pub get_room_history :
      (room_id user_id page page_size : ℕ) → Exec (Backend sql redis) PaginatedMessages
  get_room_history room_id user_id page page_size = do
    require_member room_id user_id
    (messages, total) ← get_room_messages room_id page page_size
    pure (record {
      items = map message_to_response (reverse messages);
      total = total;
      page = page;
      page_size = page_size;
      has_next = ltb (page * page_size) total;
    })

  unfoldable pub mark_messages_read :
      (ℕ → Fresh)
      → (room_id user_id : ℕ) → (message_ids : List ℕ) → Exec (Backend sql redis) (Unit {0})
  mark_messages_read fresh room_id user_id message_ids = do
    require_member room_id user_id
    mark_read fresh message_ids user_id
    publish (room_channel (Uuid.str room_id))
        (message_read (Uuid.str room_id) (Uuid.str user_id) (map Uuid.str message_ids))

  unfoldable pub get_unread_count : (room_id user_id : ℕ) → Exec (Backend sql redis) ℕ
  get_unread_count room_id user_id = do require_member room_id user_id; count_unread room_id user_id
