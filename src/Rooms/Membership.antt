-- ===== src/Rooms/Membership.antt =====
-- How many rows say that a user is in a room, before and after the operations of the repository.
use fastapi_realtime_chat.Prelude.{
  ℕ, ◌+◌, ◌≡◌, refl, ap, ◌∙◌, Bool, true, false, not, ◌&&◌, Option, none, some, arith, nat_beq,
  if◌then◌else◌, is_some, nat_eq, text_eq, count,
}
use fastapi_realtime_chat.Exec.{Error, Result, ok, err, pure, continue}
use fastapi_realtime_chat.Sql.{Sql, select_where, count_where}
use fastapi_realtime_chat.Sql.Counting.{
  count-filter, count-ext, count-never, one_or_none, found, found-count,
}
use fastapi_realtime_chat.Redis.{Redis}
use fastapi_realtime_chat.Models.{RoomMember, Fresh}
use fastapi_realtime_chat.Backend.{Db, Backend, scalar_one_or_none}
use fastapi_realtime_chat.Rooms.{
  membership, member_fits, get_member, is_member, add_member, remove_member, get_by_id, new_member,
}

-- The rows that say that a user is in a room, and the rows of a room.
abbrev pub members_of : {sql : Sql} → (room_id user_id : ℕ) → Db sql → ℕ
members_of {sql} r u db = count_where sql (membership r u) db.members

module _ {sql : Sql} {redis : Redis} where
  found_member :
      (o : Result (Option RoomMember)) (s : Backend sql redis)
      → continue o (λ member. pure (is_some member)) s ≡ (found o, s)
  found_member (ok none) s = refl
  found_member (ok (some m)) s = refl
  found_member (err e) s = refl

  -- `is_member` answers by the number of rows, raises if there are two, and changes nothing.
  pub is_member_lem :
      (r u : ℕ) (s : Backend sql redis) → is_member r u s ≡ (one_or_none (members_of r u s.db), s)
  unfolding is_member get_member
  is_member_lem r u s =
      found_member (scalar_one_or_none (select_where sql (membership r u) s.db.members)) s
      ∙ ap (λ (b : Result Bool). (b, s))
          (found-count (membership r u) (sql.scan RoomMember s.db.members))

  pub get_by_id_state : (r : ℕ) (s : Backend sql redis) → (get_by_id r s).1 ≡ s
  unfolding get_by_id
  get_by_id_state r s = refl

  module _ (fresh : Fresh) (r u : ℕ) (a : Bool) (s : Backend sql redis) where
    -- A row that fits is added, and no other membership changes.
    pub members_of-add_member :
        (m : RoomMember)
        → (add_member fresh r u a s).0 ≡ ok m
        → (r' u' : ℕ)
        → members_of r' u' (add_member fresh r u a s).1.db
          ≡ (if nat_beq r r' && nat_beq u u' then 1 else members_of r' u' s.db)
    unfolding add_member member_fits
    members_of-add_member m h r' u' = ground (
      arith,
      sql.count-insert RoomMember (membership r' u') (new_member fresh r u a) s.db.members,
    )

    -- Of the rows that meet any condition there is one more exactly if the new row meets it.
    pub count-add_member :
        (m : RoomMember)
        → (add_member fresh r u a s).0 ≡ ok m
        → (q : RoomMember → Bool)
        → count_where sql q (add_member fresh r u a s).1.db.members
          ≡ (if q (new_member fresh r u a) then 1 else 0) + count_where sql q s.db.members
    unfolding add_member
    count-add_member m h q =
        ground (arith, sql.count-insert RoomMember q (new_member fresh r u a) s.db.members)

    -- A row that breaks a constraint is not added.
    pub add_member_err :
        (e : Error) → (add_member fresh r u a s).0 ≡ err e → (add_member fresh r u a s).1 ≡ s
    unfolding add_member
    add_member_err e h = ground arith

    -- Only the table of members is written.
    pub add_member_rooms : (add_member fresh r u a s).1.db.rooms ≡ s.db.rooms
    unfolding add_member
    add_member_rooms = ground arith

  module _ (r u : ℕ) (s : Backend sql redis) where
    -- All rows of the user in the room go, and no other membership changes.
    pub members_of-remove_member :
        (r' u' : ℕ)
        → members_of r' u' (remove_member r u s).1.db
          ≡ (if nat_beq r r' && nat_beq u u' then 0 else members_of r' u' s.db)
    unfolding remove_member
    members_of-remove_member r' u' =
        let q = membership r' u' in
        let p = membership r u in
        let rows = sql.scan RoomMember s.db.members in
        let other = λ (m : RoomMember). not (p m) in
        sql.count-delete RoomMember q p s.db.members
        ∙ count-filter q other rows
        ∙ removed (nat_beq r r' && nat_beq u u') refl
      where
        removed :
            (b : Bool)
            → (nat_beq r r' && nat_beq u u') ≡ b
            → count
                (λ m. not (membership r u m) && membership r' u' m)
                (sql.scan RoomMember s.db.members)
              ≡ (if b then 0 else members_of r' u' s.db)
        removed true e = count-never _ _ (λ m. ground arith)
        removed false e = count-ext _ _ _ (λ m. ground arith)
