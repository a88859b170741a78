-- ===== src/Integrity/Rows.antt =====
-- The repositories of app/repositories are safe.
use fastapi_realtime_chat.Prelude.{
  ℕ, ℤ, pos, negsuc, ◌≡◌, false, refl, Bool, true, arith, Text, nat_eq, text_eq,
}
use fastapi_realtime_chat.Sql.{Sql, select_where}
use fastapi_realtime_chat.Sql.Counting.{count_mono}
use fastapi_realtime_chat.Redis.{Redis}
use fastapi_realtime_chat.Models.{User, ChatRoom, RoomMember, RefreshToken, Fresh}
use fastapi_realtime_chat.Backend.{Db, Backend, scalar_one_or_none, row_number}
use fastapi_realtime_chat.Rooms.{
  RoomCreate, membership, has_room_id, has_user_id, new_room, new_member, get_member, add_member,
  remove_member, member_count, get_by_id, get_public_rooms, get_user_rooms, insert_room,
}
use fastapi_realtime_chat.Messages.{get_room_messages, count_unread}
use fastapi_realtime_chat.Notifications.{get_for_user, unread_count, mark_all_read, unread_for}
use fastapi_realtime_chat.Users.{
  lower, has_username, has_email, has_hash, valid_hash, new_refresh_token, get_user,
  get_by_username, get_by_email, insert_user, update_last_seen, create_token, get_valid_token,
  revoke_where, revoke_token,
}
use fastapi_realtime_chat.Integrity.{IsIntact}
use fastapi_realtime_chat.Integrity.Writes.{
  insert_user-IsIntact, update_users-IsIntact, insert_room-IsIntact, insert_member-IsIntact,
  delete_members-IsIntact,
}
use fastapi_realtime_chat.Integrity.Others.{
  update_notifications-IsIntact, insert_token-IsIntact, revoke_tokens-IsIntact,
}
use fastapi_realtime_chat.Integrity.Safe.{
  few, miscounts, safe_rules, Sound, Safe, Safe-read, decided,
}

-- A session that has written, where the committed tables are as they were.
pub written :
    {sql : Sql} {redis : Redis} {s : Backend sql redis} {db : Db sql}
    → Sound s
    → IsIntact sql db
    → Sound {sql = sql} {redis = redis} (record s { db = db })
written h intact = record { db = intact; committed = h.committed }

row_number-counts : (n : ℤ) → miscounts (row_number n) ≡ false
row_number-counts (pos n) = refl
row_number-counts (negsuc n) = refl

module _ {sql : Sql} {redis : Redis} where
  pub Safe-get_member : (r u : ℕ) → Safe {sql = sql} {redis = redis} (get_member r u)
  unfolding get_member
  Safe-get_member r u =
      Safe-read (λ s. scalar_one_or_none (select_where sql (membership r u) s.db.members))
        (λ s h.
          few (membership r u) (sql.scan RoomMember s.db.members) ((h.db.members.pair r).at u))

  pub Safe-add_member :
      (fresh : Fresh) (r u : ℕ) (a : Bool)
      → Safe {sql = sql} {redis = redis} (add_member fresh r u a)
  unfolding add_member
  Safe-add_member fresh r u a = record {
    at = λ s h.
        decided _ _ _
          (λ fits.
            (written h (insert_member-IsIntact s.db h.db (new_member fresh r u a) fits), refl))
          (λ no_fit. (h, refl));
  }

  pub Safe-remove_member : (r u : ℕ) → Safe {sql = sql} {redis = redis} (remove_member r u)
  unfolding remove_member
  Safe-remove_member r u = record {
    at = λ s h. (written h (delete_members-IsIntact s.db h.db (membership r u)), refl);
  }

  pub Safe-member_count : (r : ℕ) → Safe {sql = sql} {redis = redis} (member_count r)
  unfolding member_count
  Safe-member_count r = record { at = λ s h. (h, refl) }

  pub Safe-get_by_id : (r : ℕ) → Safe {sql = sql} {redis = redis} (get_by_id r)
  unfolding get_by_id
  Safe-get_by_id r =
      Safe-read (λ s. scalar_one_or_none (select_where sql (has_room_id r) s.db.rooms))
        (λ s h. few (has_room_id r) (sql.scan ChatRoom s.db.rooms) (h.db.rooms.id.at r))

  pub Safe-get_public_rooms :
      (limit offset : ℤ) → Safe {sql = sql} {redis = redis} (get_public_rooms limit offset)
  unfolding get_public_rooms
  Safe-get_public_rooms limit offset = search (safe_rules, row_number-counts)

  pub Safe-get_user_rooms : (u : ℕ) → Safe {sql = sql} {redis = redis} (get_user_rooms u)
  unfolding get_user_rooms
  Safe-get_user_rooms u = record { at = λ s h. (h, refl) }

  pub Safe-insert_room :
      (fresh : Fresh) (request : RoomCreate) (owner : ℕ)
      → Safe {sql = sql} {redis = redis} (insert_room fresh request owner)
  unfolding insert_room
  Safe-insert_room fresh request owner = record {
    at = λ s h.
        decided _ _ _
          (λ fits. (
            written h
                (insert_room-IsIntact s.db h.db (new_room fresh request owner) owner refl fits),
            refl,
          ))
          (λ no_fit. (h, refl));
  }

  pub Safe-get_room_messages :
      (r page size : ℕ) → Safe {sql = sql} {redis = redis} (get_room_messages r page size)
  unfolding get_room_messages
  Safe-get_room_messages r page size = record { at = λ s h. (h, refl) }

  pub Safe-count_unread : (r u : ℕ) → Safe {sql = sql} {redis = redis} (count_unread r u)
  unfolding count_unread
  Safe-count_unread r u = record { at = λ s h. (h, refl) }

  pub Safe-get_for_user :
      (u : ℕ) (unread_only : Bool) (limit : ℤ)
      → Safe {sql = sql} {redis = redis} (get_for_user u unread_only limit)
  unfolding get_for_user
  Safe-get_for_user u unread_only limit = search (safe_rules, row_number-counts)

  pub Safe-unread_count : (u : ℕ) → Safe {sql = sql} {redis = redis} (unread_count u)
  unfolding unread_count
  Safe-unread_count u = record { at = λ s h. (h, refl) }

  pub Safe-mark_all_read : (u : ℕ) → Safe {sql = sql} {redis = redis} (mark_all_read u)
  unfolding mark_all_read
  Safe-mark_all_read u = record {
    at = λ s h. (written h (update_notifications-IsIntact s.db h.db (unread_for u) true), refl);
  }

  pub Safe-get_user : (u : ℕ) → Safe {sql = sql} {redis = redis} (get_user u)
  unfolding get_user
  Safe-get_user u =
      Safe-read (λ s. scalar_one_or_none (select_where sql (has_user_id u) s.db.users))
        (λ s h. few (has_user_id u) (sql.scan User s.db.users) (h.db.users.id.at u))

  pub Safe-get_by_username : (n : Text) → Safe {sql = sql} {redis = redis} (get_by_username n)
  unfolding get_by_username
  Safe-get_by_username n =
      Safe-read (λ s. scalar_one_or_none (select_where sql (has_username (lower n)) s.db.users))
        (λ s h.
          few (has_username (lower n)) (sql.scan User s.db.users)
            (h.db.users.username.at (lower n)))

  pub Safe-get_by_email : (e : Text) → Safe {sql = sql} {redis = redis} (get_by_email e)
  unfolding get_by_email
  Safe-get_by_email e =
      Safe-read (λ s. scalar_one_or_none (select_where sql (has_email (lower e)) s.db.users))
        (λ s h.
          few (has_email (lower e)) (sql.scan User s.db.users) (h.db.users.email.at (lower e)))

  pub Safe-insert_user : (u : User) → Safe {sql = sql} {redis = redis} (insert_user u)
  unfolding insert_user
  Safe-insert_user u = record {
    at = λ s h.
        decided _ _ _ (λ fits. (written h (insert_user-IsIntact s.db h.db u fits), refl))
          (λ no_fit. (h, refl));
  }

  pub Safe-update_last_seen :
      (now u : ℕ) → Safe {sql = sql} {redis = redis} (update_last_seen now u)
  unfolding update_last_seen
  Safe-update_last_seen now u = record {
    at = λ s h. (
      written h
          (update_users-IsIntact s.db h.db (has_user_id u) _ (λ x. refl) (λ x. refl) (λ x. refl)),
      refl,
    );
  }

  pub Safe-create_token :
      (fresh : Fresh) (u : ℕ) (hash : Text) (expires_at : ℕ)
      → Safe {sql = sql} {redis = redis} (create_token fresh u hash expires_at)
  unfolding create_token
  Safe-create_token fresh u hash expires_at = record {
    at = λ s h.
        decided _ _ _
          (λ fits. (
            written h
                (insert_token-IsIntact s.db h.db (new_refresh_token fresh u hash expires_at) fits),
            refl,
          ))
          (λ no_fit. (h, refl));
  }

  pub Safe-get_valid_token :
      (now : ℕ) (hash : Text) → Safe {sql = sql} {redis = redis} (get_valid_token now hash)
  unfolding get_valid_token
  Safe-get_valid_token now hash =
      Safe-read (λ s. scalar_one_or_none (select_where sql (valid_hash now hash) s.db.tokens))
        (λ s h.
          let rows = sql.scan RefreshToken s.db.tokens in
          few (valid_hash now hash) rows (
            omega (
              arith,
              count_mono (valid_hash now hash) (has_hash hash) rows (λ t q. ground arith),
              h.db.tokens.hash.at hash,
            )))

  pub Safe-revoke_token : (hash : Text) → Safe {sql = sql} {redis = redis} (revoke_token hash)
  unfolding revoke_token revoke_where
  Safe-revoke_token hash = record {
    at = λ s h. (written h (revoke_tokens-IsIntact s.db h.db (has_hash hash) true), refl);
  }
