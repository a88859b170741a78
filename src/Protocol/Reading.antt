-- ===== src/Protocol/Reading.antt =====
-- What the schemas of app/schemas/websocket.py make of the events that the code sends.
use fastapi_realtime_chat.Prelude.{
  ℕ, ◌≡◌, refl, Option, none, some, List, [], ◌∷◌, arith, Text, nat_eq, text_eq,
}
use fastapi_realtime_chat.Protocol.{
  Event, chat_message, typing, presence, message_read, pong, error, online, offline,
}
use fastapi_realtime_chat.Protocol.Wire.{
  event_dict, ws_notification_event, ws_system_message, readings,
}

-- The events among what the schemas make of an object.
abbrev pub fitting : List (Option Event) → List Event
fitting [] = []
fitting (none ∷ rs) = fitting rs
fitting (some e ∷ rs) = e ∷ fitting rs

module _ (isoformat : ℕ → Text) (fromisoformat : Text → Option ℕ)
    (iso : (t : ℕ) → fromisoformat (isoformat t) ≡ some t) where
  -- Where `fromisoformat` reads what `isoformat` writes: of the schemas of messages from the server to
  -- the client, exactly one fits the object that the code sends for an event, and it gives the event
  -- back; the schemas of notifications and of system messages never fit.
  pub readings-event_dict :
      (e : Event)
      → let o = event_dict isoformat e in
        (fitting (readings fromisoformat o) ≡ e ∷ [])
        × (ws_notification_event o ≡ none)
        × (ws_system_message o ≡ none)
  unfolding readings event_dict
  readings-event_dict (chat_message m) = (ground (arith, iso m.created_at), refl, refl)
  readings-event_dict (typing room_id user_id username is_typing) = (refl, refl, refl)
  readings-event_dict (presence user_id username online) = (refl, refl, refl)
  readings-event_dict (presence user_id username offline) = (refl, refl, refl)
  readings-event_dict (message_read room_id user_id message_ids) = (refl, refl, refl)
  readings-event_dict pong = (refl, refl, refl)
  readings-event_dict (error message) = (refl, refl, refl)
