-- ===== src/Integrity/Parents.antt =====
-- A table that others refer to may be replaced by one that has all of its keys.
use fastapi_realtime_chat.Prelude.{nat_eq, text_eq}
use fastapi_realtime_chat.Sql.{Sql}
use fastapi_realtime_chat.Models.{User, ChatRoom, Message}
use fastapi_realtime_chat.Backend.{Db}
use fastapi_realtime_chat.Rooms.{has_room_id, has_user_id}
use fastapi_realtime_chat.Messages.{has_message_id}
use fastapi_realtime_chat.Integrity.{UsersIntact, RoomsIntact, MessagesIntact, IsIntact}
use fastapi_realtime_chat.Integrity.Tables.{Covers, References-covers}

module _ {sql : Sql} (db : Db sql) (h : IsIntact sql db) where
  pub with_users-IsIntact :
      {users : sql.Table User}
      → Covers sql has_user_id db.users users
      → UsersIntact sql users
      → IsIntact sql (record db { users = users })
  with_users-IsIntact covers intact = record {
    users = intact;
    rooms = record { id = h.rooms.id; owner = References-covers h.rooms.owner covers };
    members = record {
      id = h.members.id;
      pair = h.members.pair;
      room = h.members.room;
      user = References-covers h.members.user covers;
    };
    messages = record {
      id = h.messages.id;
      room = h.messages.room;
      sender = References-covers h.messages.sender covers;
    };
    receipts = record {
      id = h.receipts.id;
      message = h.receipts.message;
      user = References-covers h.receipts.user covers;
    };
    notifications = record {
      id = h.notifications.id;
      recipient = References-covers h.notifications.recipient covers;
      actor = References-covers h.notifications.actor covers;
      room = h.notifications.room;
      message = h.notifications.message;
    };
    tokens = record {
      id = h.tokens.id;
      hash = h.tokens.hash;
      user = References-covers h.tokens.user covers;
    };
  }

  pub with_rooms-IsIntact :
      {rooms : sql.Table ChatRoom}
      → Covers sql has_room_id db.rooms rooms
      → RoomsIntact sql db.users rooms
      → IsIntact sql (record db { rooms = rooms })
  with_rooms-IsIntact covers intact = record {
    users = h.users;
    rooms = intact;
    members = record {
      id = h.members.id;
      pair = h.members.pair;
      room = References-covers h.members.room covers;
      user = h.members.user;
    };
    messages = record {
      id = h.messages.id;
      room = References-covers h.messages.room covers;
      sender = h.messages.sender;
    };
    receipts = h.receipts;
    notifications = record {
      id = h.notifications.id;
      recipient = h.notifications.recipient;
      actor = h.notifications.actor;
      room = References-covers h.notifications.room covers;
      message = h.notifications.message;
    };
    tokens = h.tokens;
  }

  pub with_messages-IsIntact :
      {messages : sql.Table Message}
      → Covers sql has_message_id db.messages messages
      → MessagesIntact sql db.users db.rooms messages
      → IsIntact sql (record db { messages = messages })
  with_messages-IsIntact covers intact = record {
    users = h.users;
    rooms = h.rooms;
    members = h.members;
    messages = intact;
    receipts = record {
      id = h.receipts.id;
      message = References-covers h.receipts.message covers;
      user = h.receipts.user;
    };
    notifications = record {
      id = h.notifications.id;
      recipient = h.notifications.recipient;
      actor = h.notifications.actor;
      room = h.notifications.room;
      message = References-covers h.notifications.message covers;
    };
    tokens = h.tokens;
  }
