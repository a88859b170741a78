-- ===== src/Protocol.antt =====
-- The messages of the WebSocket protocol (app/schemas/websocket.py), and the sockets they go to.
pub mod Wire
pub mod Reading
use fastapi_realtime_chat.Prelude.{ℕ, Bool, Option, List, Text}

-- `WSOutChatMessage`
pub record ChatMessage : Type 0 where
  pub id : Text
  pub room_id : Text
  pub sender_id : Text
  pub sender_username : Text
  pub sender_display_name : Option Text
  pub sender_avatar_url : Option Text
  pub content : Option Text
  pub image_url : Option Text
  pub created_at : ℕ

pub data Status : Type 0 where
  online offline : Status

-- What the server sends, by its `type`.
pub data Event : Type 0 where
  chat_message : ChatMessage → Event
  typing : (room_id user_id username : Text) → (is_typing : Bool) → Event
  presence : (user_id username : Text) → Status → Event
  message_read : (room_id user_id : Text) → (message_ids : List Text) → Event
  pong : Event
  error : (message : Text) → Event

-- A WebSocket object, by its identity.
abbrev pub Socket : Type 0
Socket = ℕ

-- A call on a WebSocket.
pub data Output : Type 0 where
  accept : Socket → Output
  close : Socket → (code : ℕ) → Output
  send : Socket → Event → Output
