-- ===== src/Examples/Deliveries.antt =====
-- Events on their way to sockets, notifications, and an upload.
use fastapi_realtime_chat.Prelude.{
  ◌≡◌, refl, ◌⊎◌, Bool, true, false, Option, none, some, [], ◌++◌, if◌then◌else◌, ◌==◌, Text, codes,
  nat_eq, text_eq,
}
use fastapi_realtime_chat.Dict.{keys, put}
use fastapi_realtime_chat.Exec.{ok, err, bad_request_exception}
use fastapi_realtime_chat.Uuid
use fastapi_realtime_chat.Protocol.{Socket, Event, pong}
use fastapi_realtime_chat.Presence.{presence_channel}
use fastapi_realtime_chat.ConnectionManager.{ConnectionManager, init, connect}
use fastapi_realtime_chat.ConnectionManager.Laws.{registered}
use fastapi_realtime_chat.ConnectionManager.Consistent.{
  IsConsistent, init-IsConsistent, connect-IsConsistent,
}
use fastapi_realtime_chat.ConnectionManager.Broadcast.{keep_alive}
use fastapi_realtime_chat.Subscriber.{handle_message}
use fastapi_realtime_chat.Subscriber.FanOut.{to_rooms, presence_fan_out}
use fastapi_realtime_chat.Subscriber.Delivery.{event}
use fastapi_realtime_chat.Upload.{default_uploads, UploadFile, type_text, extension, upload_image}
use fastapi_realtime_chat.Upload.Accepted.{accepted, stored_at, upload_image_lem}
use fastapi_realtime_chat.Examples.World.{room_text}

abbrev all_alive : Socket → Bool
all_alive ws = true

-- JSON of which one text is known.
abbrev loads : Event → Text → Option Event
loads event raw = if raw == codes "{}" then some event else none

abbrev one_socket : ConnectionManager
one_socket = (connect 5 room_text (codes "u") init).1

one_socket-IsConsistent : IsConsistent one_socket
one_socket-IsConsistent = connect-IsConsistent 5 room_text (codes "u") init init-IsConsistent

presence_fan_out_example :
    let (sent, m) =
      handle_message all_alive (loads pong) presence_channel (codes "{}") one_socket in
    (sent ≡ to_rooms all_alive pong (keys one_socket.rooms) one_socket)
    × ((r u : Text) → registered r u m ≡ keep_alive all_alive (registered r u one_socket))
presence_fan_out_example =
    presence_fan_out all_alive (loads pong) (codes "{}") pong one_socket refl
      one_socket-IsConsistent

-- The room's id without dashes.
abbrev no_dashes : Text
no_dashes = codes "00000000000000000000000000000007"

-- A sound file that says it is a picture: its first bytes are those of WebP too.
abbrev sound : UploadFile
sound = record { content_type = some (codes "image/webp"); content = codes "RIFF1234WAVE" }

upload_image_lem_example :
    let filename = Uuid.str 9 ++ extension (type_text sound.content_type) in
    ((accepted default_uploads sound ≡ true)
      × (upload_image default_uploads 9 sound [] ≡ (
        ok (record { url = codes "/uploads/images/" ++ filename; filename = filename }),
        put (stored_at default_uploads 9 sound) sound.content [],
      )))
    ⊎ ((accepted default_uploads sound ≡ false)
        × (message : Text) × (upload_image default_uploads 9 sound []
            ≡ (err (bad_request_exception message), [])))
upload_image_lem_example = upload_image_lem default_uploads 9 sound []
