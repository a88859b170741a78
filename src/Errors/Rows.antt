-- ===== src/Errors/Rows.antt =====
-- The repositories of app/repositories raise nothing that an endpoint is to catch.
use fastapi_realtime_chat.Prelude.{
  ℕ, ℤ, pos, negsuc, refl, Bool, Option, none, some, List, [], ◌∷◌, arith, Text, nat_eq, text_eq,
}
use fastapi_realtime_chat.Sql.{Sql}
use fastapi_realtime_chat.Redis.{Redis}
use fastapi_realtime_chat.Models.{User, Fresh}
use fastapi_realtime_chat.Backend.{Db, Backend, scalar_one_or_none, row_number}
use fastapi_realtime_chat.Rooms.{
  RoomCreate, get_member, add_member, remove_member, member_count, get_by_id, get_public_rooms,
  get_user_rooms, insert_room,
}
use fastapi_realtime_chat.Messages.{get_room_messages, count_unread}
use fastapi_realtime_chat.Notifications.{get_for_user, unread_count, mark_all_read}
use fastapi_realtime_chat.Users.{
  get_user, get_by_username, get_by_email, insert_user, update_last_seen, create_token,
  get_valid_token, revoke_where, revoke_token,
}
use fastapi_realtime_chat.Exec.{Error, Result}
use fastapi_realtime_chat.Messages.{create_with_sender, mark_read}
use fastapi_realtime_chat.Chat.Sending.{create_with_sender_lem}
use fastapi_realtime_chat.Exec.{ok, err, integrity_error}
use fastapi_realtime_chat.Errors.{Among, Yields, Raises, Raises-read, raise_rules}

module _ {others : Error → Bool} where
  row-Among : {R : Type 0} (rows : List R) → Among others (scalar_one_or_none rows)
  row-Among [] = record { at = refl }
  row-Among (r ∷ []) = record { at = refl }
  row-Among (r ∷ r' ∷ rows) = record { at = refl }

  row_number-Among : (n : ℤ) → Among others (row_number n)
  row_number-Among (pos n) = record { at = refl }
  row_number-Among (negsuc n) = record { at = refl }

module _ {sql : Sql} {redis : Redis} {others : Error → Bool} where
  pub Raises-get_member : (r u : ℕ) → Raises {S = Backend sql redis} others (get_member r u)
  unfolding get_member
  Raises-get_member r u = Raises-read _ (λ s. row-Among _)

  pub Raises-add_member :
      (fresh : Fresh) (r u : ℕ) (a : Bool)
      → Raises {S = Backend sql redis} others (add_member fresh r u a)
  unfolding add_member
  Raises-add_member fresh r u a = record { at = λ s. record { at = ground arith } }

  pub Raises-remove_member : (r u : ℕ) → Raises {S = Backend sql redis} others (remove_member r u)
  unfolding remove_member
  Raises-remove_member r u = record { at = λ s. record { at = refl } }

  pub Raises-member_count : (r : ℕ) → Raises {S = Backend sql redis} others (member_count r)
  unfolding member_count
  Raises-member_count r = record { at = λ s. record { at = refl } }

  pub Raises-get_by_id : (r : ℕ) → Raises {S = Backend sql redis} others (get_by_id r)
  unfolding get_by_id
  Raises-get_by_id r = Raises-read _ (λ s. row-Among _)

  pub Raises-get_public_rooms :
      (limit offset : ℤ) → Raises {S = Backend sql redis} others (get_public_rooms limit offset)
  unfolding get_public_rooms
  Raises-get_public_rooms limit offset = search (raise_rules, row_number-Among)

  pub Raises-get_user_rooms : (u : ℕ) → Raises {S = Backend sql redis} others (get_user_rooms u)
  unfolding get_user_rooms
  Raises-get_user_rooms u = record { at = λ s. record { at = refl } }

  pub Raises-insert_room :
      (fresh : Fresh) (request : RoomCreate) (owner : ℕ)
      → Raises {S = Backend sql redis} others (insert_room fresh request owner)
  unfolding insert_room
  Raises-insert_room fresh request owner = record { at = λ s. record { at = ground arith } }

  pub Raises-get_room_messages :
      (r page size : ℕ) → Raises {S = Backend sql redis} others (get_room_messages r page size)
  unfolding get_room_messages
  Raises-get_room_messages r page size = record { at = λ s. record { at = refl } }

  pub Raises-count_unread : (r u : ℕ) → Raises {S = Backend sql redis} others (count_unread r u)
  unfolding count_unread
  Raises-count_unread r u = record { at = λ s. record { at = refl } }

  pub Raises-get_for_user :
      (u : ℕ) (unread_only : Bool) (limit : ℤ)
      → Raises {S = Backend sql redis} others (get_for_user u unread_only limit)
  unfolding get_for_user
  Raises-get_for_user u unread_only limit = search (raise_rules, row_number-Among)

  pub Raises-unread_count : (u : ℕ) → Raises {S = Backend sql redis} others (unread_count u)
  unfolding unread_count
  Raises-unread_count u = record { at = λ s. record { at = refl } }

  pub Raises-mark_all_read : (u : ℕ) → Raises {S = Backend sql redis} others (mark_all_read u)
  unfolding mark_all_read
  Raises-mark_all_read u = record { at = λ s. record { at = refl } }

  pub Raises-get_user : (u : ℕ) → Raises {S = Backend sql redis} others (get_user u)
  unfolding get_user
  Raises-get_user u = Raises-read _ (λ s. row-Among _)

  pub Raises-get_by_username :
      (n : Text) → Raises {S = Backend sql redis} others (get_by_username n)
  unfolding get_by_username
  Raises-get_by_username n = Raises-read _ (λ s. row-Among _)

  pub Raises-get_by_email : (e : Text) → Raises {S = Backend sql redis} others (get_by_email e)
  unfolding get_by_email
  Raises-get_by_email e = Raises-read _ (λ s. row-Among _)

  pub Raises-insert_user : (u : User) → Raises {S = Backend sql redis} others (insert_user u)
  unfolding insert_user
  Raises-insert_user u = record { at = λ s. record { at = ground arith } }

  pub Raises-update_last_seen :
      (now u : ℕ) → Raises {S = Backend sql redis} others (update_last_seen now u)
  unfolding update_last_seen
  Raises-update_last_seen now u = record { at = λ s. record { at = refl } }

  pub Raises-create_token :
      (fresh : Fresh) (u : ℕ) (hash : Text) (expires_at : ℕ)
      → Raises {S = Backend sql redis} others (create_token fresh u hash expires_at)
  unfolding create_token
  Raises-create_token fresh u hash expires_at = record { at = λ s. record { at = ground arith } }

  pub Raises-get_valid_token :
      (now : ℕ) (hash : Text) → Raises {S = Backend sql redis} others (get_valid_token now hash)
  unfolding get_valid_token
  Raises-get_valid_token now hash = Raises-read _ (λ s. row-Among _)

  pub Raises-revoke_token :
      (hash : Text) → Raises {S = Backend sql redis} others (revoke_token hash)
  unfolding revoke_token revoke_where
  Raises-revoke_token hash = record { at = λ s. record { at = refl } }

  pub Raises-create_with_sender :
      (fresh : Fresh) (r u : ℕ) (c i : Option Text)
      → Raises {S = Backend sql redis} others (create_with_sender fresh r u c i)
  Raises-create_with_sender fresh r u c i = record {
    at = λ s. rw (create_with_sender_lem fresh r u c i s) (record { at = ground arith });
  }

  inserted-Yields :
      (s : Backend sql redis) (o : Option (Db sql))
      → Yields others (elim o as (λ _. Result (Unit {0}) × Backend sql redis) [
        | none ↦ (err integrity_error, s)
        | some db' ↦ (ok tt, record s { db = db' })
      ])
  inserted-Yields s none = record { at = refl }
  inserted-Yields s (some db') = record { at = refl }

  pub Raises-mark_read :
      (fresh : ℕ → Fresh) (ids : List ℕ) (u : ℕ)
      → Raises {S = Backend sql redis} others (mark_read fresh ids u)
  unfolding mark_read
  Raises-mark_read fresh ids u = record { at = λ s. inserted-Yields s _ }

pub ruleset query_rules = (
  Raises-get_member, Raises-add_member, Raises-remove_member, Raises-member_count, Raises-get_by_id,
  Raises-get_public_rooms, Raises-get_user_rooms, Raises-insert_room, Raises-get_room_messages,
  Raises-count_unread, Raises-get_for_user, Raises-unread_count, Raises-mark_all_read,
  Raises-get_user, Raises-get_by_username, Raises-get_by_email, Raises-insert_user,
  Raises-create_token, Raises-get_valid_token, Raises-revoke_token, Raises-create_with_sender,
  Raises-mark_read,
)
