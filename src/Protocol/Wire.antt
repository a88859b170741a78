-- ===== src/Protocol/Wire.antt =====
-- The events as the JSON objects that the code sends, and as the schemas of
-- app/schemas/websocket.py describe them.
use fastapi_realtime_chat.Prelude.{
  ℕ, Bool, Option, none, some, List, [], ◌∷◌, if◌then◌else◌, ◌==◌, Text, codes, nat_eq, text_eq,
}
use fastapi_realtime_chat.Protocol.{
  ChatMessage, Status, online, offline, Event, chat_message, typing, presence, message_read, pong,
  error,
}

-- The JSON values of the events' fields.
pub data Value : Type 0 where
  null : Value
  text : Text → Value
  flag : Bool → Value
  texts : List Text → Value

-- A Python dict with texts for keys.
abbrev pub Object : Type 0
Object = List (Text × Value)

abbrev text_or_null : Option Text → Value
text_or_null none = null
text_or_null (some t) = text t

abbrev status_text : Status → Text
status_text online = codes "online"
status_text offline = codes "offline"

-- `dict.get`
abbrev get : Text → Object → Option Value
get key [] = none
get key ((k, v) ∷ fields) = if k == key then some v else get key fields

infixl 10 ◌>>=◌ ◌>>◌
abbrev ◌>>=◌ : {A B : Type 0} → Option A → (A → Option B) → Option B
none >>= f = none
some a >>= f = f a

abbrev ◌>>◌ : {A B : Type 0} → Option A → Option B → Option B
m >> n = m >>= λ _. n

-- A field of type `str`, of type `str | None`, `bool` and `list[str]`. A schema refuses an object
-- that lacks the field or has it with another type.
abbrev as_text : Option Value → Option Text
as_text (some (text t)) = some t
as_text v = none

abbrev as_text_or_null : Option Value → Option (Option Text)
as_text_or_null (some null) = some none
as_text_or_null (some (text t)) = some (some t)
as_text_or_null v = none

abbrev as_flag : Option Value → Option Bool
as_flag (some (flag b)) = some b
as_flag v = none

abbrev as_texts : Option Value → Option (List Text)
as_texts (some (texts ts)) = some ts
as_texts v = none

-- `Literal["online", "offline"]`
abbrev as_status : Option Text → Option Status
as_status none = none
as_status (some t) =
    if t == codes "online" then some online else if t == codes "offline" then some offline else none

-- `Literal[t]`
abbrev literal : Text → Option Text → Option (Unit {0})
literal t none = none
literal t (some t') = if t' == t then some tt else none

module _ (isoformat : ℕ → Text) where
  -- `model_dump()`, in the order of the fields.
  abbrev chat_message_dict : ChatMessage → Object
  chat_message_dict m =
      (codes "type", text (codes "chat_message"))
      ∷ (codes "id", text m.id)
      ∷ (codes "room_id", text m.room_id)
      ∷ (codes "sender_id", text m.sender_id)
      ∷ (codes "sender_username", text m.sender_username)
      ∷ (codes "sender_display_name", text_or_null m.sender_display_name)
      ∷ (codes "sender_avatar_url", text_or_null m.sender_avatar_url)
      ∷ (codes "content", text_or_null m.content)
      ∷ (codes "image_url", text_or_null m.image_url)
      ∷ (codes "created_at", text (isoformat m.created_at))
      ∷ []

  -- The dicts that the services and the router write out.
  unfoldable pub event_dict : Event → Object
  event_dict (chat_message m) = chat_message_dict m
  event_dict (typing room_id user_id username is_typing) =
      (codes "type", text (codes "typing"))
      ∷ (codes "room_id", text room_id)
      ∷ (codes "user_id", text user_id)
      ∷ (codes "username", text username)
      ∷ (codes "is_typing", flag is_typing)
      ∷ []
  event_dict (presence user_id username status) =
      (codes "type", text (codes "presence"))
      ∷ (codes "user_id", text user_id)
      ∷ (codes "username", text username)
      ∷ (codes "status", text (status_text status))
      ∷ []
  event_dict (message_read room_id user_id message_ids) =
      (codes "type", text (codes "message_read"))
      ∷ (codes "room_id", text room_id)
      ∷ (codes "user_id", text user_id)
      ∷ (codes "message_ids", texts message_ids)
      ∷ []
  event_dict pong = (codes "type", text (codes "pong")) ∷ []
  event_dict (error message) =
      (codes "type", text (codes "error")) ∷ (codes "message", text message) ∷ []

abbrev pub ws_typing_event : Object → Option Event
ws_typing_event o = do
  literal (codes "typing") (as_text (get (codes "type") o))
  room_id ← as_text (get (codes "room_id") o)
  user_id ← as_text (get (codes "user_id") o)
  username ← as_text (get (codes "username") o)
  is_typing ← as_flag (get (codes "is_typing") o)
  some (typing room_id user_id username is_typing)

abbrev pub ws_presence_event : Object → Option Event
ws_presence_event o = do
  literal (codes "presence") (as_text (get (codes "type") o))
  user_id ← as_text (get (codes "user_id") o)
  username ← as_text (get (codes "username") o)
  status ← as_status (as_text (get (codes "status") o))
  some (presence user_id username status)

abbrev pub ws_message_read_event : Object → Option Event
ws_message_read_event o = do
  literal (codes "message_read") (as_text (get (codes "type") o))
  room_id ← as_text (get (codes "room_id") o)
  message_ids ← as_texts (get (codes "message_ids") o)
  user_id ← as_text (get (codes "user_id") o)
  some (message_read room_id user_id message_ids)

abbrev pub ws_pong : Object → Option Event
ws_pong o = do literal (codes "pong") (as_text (get (codes "type") o)); some pong

abbrev pub ws_error : Object → Option Event
ws_error o = do
  literal (codes "error") (as_text (get (codes "type") o))
  message ← as_text (get (codes "message") o)
  some (error message)

-- The schemas of which the code sends no event: their fields, in the order of the source.
abbrev pub ws_notification_event : Object → Option (Text × Text × Text × Option Text × Option Text)
ws_notification_event o = do
  literal (codes "notification") (as_text (get (codes "type") o))
  id ← as_text (get (codes "id") o)
  notification_type ← as_text (get (codes "notification_type") o)
  content ← as_text (get (codes "content") o)
  room_id ← as_text_or_null (get (codes "room_id") o)
  message_id ← as_text_or_null (get (codes "message_id") o)
  some (id, notification_type, content, room_id, message_id)

abbrev pub ws_system_message : Object → Option Text
ws_system_message o = do
  literal (codes "system") (as_text (get (codes "type") o))
  content ← as_text (get (codes "content") o)
  some content

module _ (fromisoformat : Text → Option ℕ) where
  abbrev pub ws_out_chat_message : Object → Option Event
  ws_out_chat_message o = do
    literal (codes "chat_message") (as_text (get (codes "type") o))
    id ← as_text (get (codes "id") o)
    room_id ← as_text (get (codes "room_id") o)
    sender_id ← as_text (get (codes "sender_id") o)
    sender_username ← as_text (get (codes "sender_username") o)
    sender_display_name ← as_text_or_null (get (codes "sender_display_name") o)
    sender_avatar_url ← as_text_or_null (get (codes "sender_avatar_url") o)
    content ← as_text_or_null (get (codes "content") o)
    image_url ← as_text_or_null (get (codes "image_url") o)
    iso ← as_text (get (codes "created_at") o)
    created_at ← fromisoformat iso
    some (
        chat_message (record {
          id = id;
          room_id = room_id;
          sender_id = sender_id;
          sender_username = sender_username;
          sender_display_name = sender_display_name;
          sender_avatar_url = sender_avatar_url;
          content = content;
          image_url = image_url;
          created_at = created_at;
        }))

  -- What each schema of an event that the code sends makes of an object, if it fits.
  unfoldable pub readings : Object → List (Option Event)
  readings o =
      ws_out_chat_message o
      ∷ ws_typing_event o
      ∷ ws_presence_event o
      ∷ ws_message_read_event o
      ∷ ws_pong o
      ∷ ws_error o
      ∷ []
