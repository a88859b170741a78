-- ===== src/Messages/Ordered.antt =====
-- The order in which `get_room_messages` of app/repositories/message_repo.py reads a room.
use fastapi_realtime_chat.Prelude.{ℕ, ◌≡◌, ◌∙◌, true, List, arith, nat_eq, text_eq, length}
use fastapi_realtime_chat.Sql.{Sql, select_where, count_where}
use fastapi_realtime_chat.Sql.Counting.{count-filter, count-ext}
use fastapi_realtime_chat.Sql.Slices.{length-count}
use fastapi_realtime_chat.Models.{Message}
use fastapi_realtime_chat.Backend.{Db}
use fastapi_realtime_chat.Messages.{visible_in}

-- The visible messages of a room, newest first.
abbrev pub ordered : {sql : Sql} → (room_id : ℕ) → Db sql → List Message
ordered {sql} r db =
    sql.order_desc Message (λ m. m.created_at) (select_where sql (visible_in r) db.messages)

pub length-ordered :
    {sql : Sql} (r : ℕ) (db : Db sql)
    → length (ordered r db) ≡ count_where sql (visible_in r) db.messages
length-ordered {sql} r db =
    length-count (ordered r db)
    ∙ sql.count-order_desc Message (λ _. true) (λ m. m.created_at) _
    ∙ count-filter (λ _. true) (visible_in r) (sql.scan Message db.messages)
    ∙ count-ext _ _ (sql.scan Message db.messages) (λ m. ground arith)
