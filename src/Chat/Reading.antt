-- ===== src/Chat/Reading.antt =====
-- `get_room_history` of app/services/chat_service.py.
use mathlib.Core.List.{reverse, reverse-cons}
use fastapi_realtime_chat.Prelude.{
  ℕ, ◌+◌, ◌-◌, ◌*◌, ◌≤◌, ◌<◌, ◌≡◌, refl, ap, ◌∙◌, List, [], ◌∷◌, map, arith, ltb, nat_eq, text_eq,
  length, take, drop, length-append,
}
use fastapi_realtime_chat.Exec.{ok}
use fastapi_realtime_chat.Sql.{Sql, count_where}
use fastapi_realtime_chat.Redis.{Redis}
use fastapi_realtime_chat.Backend.{Backend}
use fastapi_realtime_chat.Rooms.Membership.{members_of}
use fastapi_realtime_chat.Messages.{load, visible_in, get_room_messages}
use fastapi_realtime_chat.Sql.Slices.{length-map, length-take-drop, length-take-le}
use fastapi_realtime_chat.Messages.Ordered.{ordered, length-ordered}
use fastapi_realtime_chat.Chat.{PaginatedMessages, message_to_response, get_room_history}
use fastapi_realtime_chat.Chat.Sending.{require_member_lem}

length-reverse : {A : Type 0} (xs : List A) → length (reverse xs) ≡ length xs
length-reverse [] = refl
length-reverse (x ∷ xs) =
    omega
      (arith, ap length (reverse-cons x xs), length-append (reverse xs) (x ∷ []), length-reverse xs)

module _ {sql : Sql} {redis : Redis} (r u size : ℕ) (s : Backend sql redis)
    (h : members_of r u s.db ≡ 1) where
  abbrev answer : ℕ → PaginatedMessages
  answer page = record {
    items =
        map message_to_response
          (reverse (map (load s.db) (take size (drop ((page - 1) * size) (ordered r s.db)))));
    total = count_where sql (visible_in r) s.db.messages;
    page = page;
    page_size = size;
    has_next = ltb (page * size) (count_where sql (visible_in r) s.db.messages);
  }

  get_room_history_lem : (page : ℕ) → get_room_history r u page size s ≡ (ok (answer page), s)
  unfolding get_room_history get_room_messages
  get_room_history_lem page = ground (arith, require_member_lem r u s)

  -- A member who asks for a page of the history, of at least one message, gets an answer for it
  -- and for the page after it; `has_next` of the first says whether the second has a message, and
  -- no page is longer than asked for.
  pub has_next_exact :
      (page : ℕ)
      → 0 < page
      → 0 < size
      → (res : PaginatedMessages) × (res' : PaginatedMessages) × (get_room_history r u page size s
          ≡ (ok res, s))
        × (get_room_history r u (page + 1) size s ≡ (ok res', s))
        × (res.has_next ≡ ltb 0 (length res'.items))
        × (length res.items ≤ size)
  has_next_exact page hp hs =
      let e : page + 1 - 1 ≡ page = omega arith in
      let shown = λ (n : ℕ). take size (drop n (ordered r s.db)) in
      let items_length = λ (n : ℕ).
        length-map message_to_response (reverse (map (load s.db) (shown n)))
        ∙ length-reverse (map (load s.db) (shown n))
        ∙ length-map (load s.db) (shown n) in
      (
        answer page,
        answer (page + 1),
        get_room_history_lem page,
        get_room_history_lem (page + 1),
        rw (
          items_length ((page + 1 - 1) * size),
          e,
          length-take-drop size (page * size) (ordered r s.db) hs,
          length-ordered r s.db,
        ),
        rw (items_length ((page - 1) * size))
            (length-take-le size (drop ((page - 1) * size) (ordered r s.db))),
      )
