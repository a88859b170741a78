-- ===== src/Examples/World.antt =====
-- A small database with two users, one room and one message, and a Redis that is up.
use fastapi_realtime_chat.Prelude.{ℕ, true, none, some, [], ◌∷◌, Text, codes, nat_eq, text_eq}
use fastapi_realtime_chat.Uuid
use fastapi_realtime_chat.Sql.ListTables.{list_tables}
use fastapi_realtime_chat.Redis.KeyList.{key_list}
use fastapi_realtime_chat.Models.{User, ChatRoom, private, Message, Fresh}
use fastapi_realtime_chat.Backend.{Db, Backend}
use fastapi_realtime_chat.Users.{new_user}
use fastapi_realtime_chat.Rooms.{new_member, RoomCreate, new_room}
use fastapi_realtime_chat.Messages.{new_message}

abbrev pub at_id : ℕ → Fresh
at_id id = record { id = id; now = 100 }

abbrev pub alice : User
alice = new_user (at_id 1) (codes "alice") (codes "a@x") (codes "secret") none

abbrev pub bob : User
bob = new_user (at_id 2) (codes "bob") (codes "b@x") (codes "hunter") none

abbrev pub request : RoomCreate
request = record { name = codes "team"; description = none; room_type = private }

abbrev pub team : ChatRoom
team = new_room (at_id 7) request 1

abbrev pub hello : Message
hello = new_message (at_id 20) 7 1 (some (codes "hello")) none

abbrev pub world_db : Db list_tables
world_db = record {
  users = alice ∷ bob ∷ [];
  rooms = team ∷ [];
  members = new_member (at_id 10) 7 1 true ∷ [];
  messages = hello ∷ [];
  receipts = [];
  notifications = [];
  tokens = [];
}

-- Alice is in the room, Bob is not.
abbrev pub world : Backend list_tables key_list
world = record { db = world_db; committed = world_db; store = []; redis_up = true; published = [] }

abbrev pub room_text : Text
room_text = Uuid.str 7
