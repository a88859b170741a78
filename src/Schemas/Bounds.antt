-- ===== src/Schemas/Bounds.antt =====
-- What a request that app/schemas accepts is bounded by.
use fastapi_realtime_chat.Prelude.{
  ℕ, ◌+◌, ◌≤◌, ◌≡◌, ap, ◌∙◌, inl, inr, true, arith, ltb, Bool-cases, nat_eq, text_eq, length,
}
use fastapi_realtime_chat.Exec.{ok}
use fastapi_realtime_chat.Sql.{Sql}
use fastapi_realtime_chat.Redis.{Redis}
use fastapi_realtime_chat.Models.{User}
use fastapi_realtime_chat.Backend.{Backend, result-cases}
use fastapi_realtime_chat.Rooms.Membership.{members_of, is_member_lem}
use fastapi_realtime_chat.Chat.{PaginatedMessages, get_room_history, require_member}
use fastapi_realtime_chat.Chat.Reading.{has_next_exact}
use fastapi_realtime_chat.Api.{get_messages}
use fastapi_realtime_chat.Schemas.{page_query, get_history}

module _ {sql : Sql} {redis : Redis} (r page size : ℕ) (u : User) (s : Backend sql redis)
    (res : PaginatedMessages) (answered : (get_history r page size u s).0 ≡ ok res) where
  history-ok : (page_query page size ≡ true) × ((get_room_history r u.id page size s).0 ≡ ok res)
  unfolding get_history get_messages
  history-ok = elim (Bool-cases (page_query page size)) [
    | inl e ↦ elim (result-cases (get_room_history r u.id page size s).0) [
      | inl (x, e') ↦ (e, ground arith)
      | inr (x, e') ↦ absurd (ground arith)
    ]
    | inr e ↦ absurd (ground arith)
  ]

  history-member : members_of r u.id s.db ≡ 1
  unfolding get_room_history require_member
  history-member = ground (arith, history-ok.1, is_member_lem r u.id s)

  -- An answer to `GET /messages/{room_id}` has at most 200 messages, and no more than asked for. The
  -- next page can be asked for too, and `has_next` says whether it has a message.
  pub history_bounded :
      (length res.items ≤ size)
      × (size ≤ 200)
      × (res' : PaginatedMessages) × ((get_history r (page + 1) size u s).0 ≡ ok res')
      × (res.has_next ≡ ltb 0 (length res'.items))
  unfolding get_history get_messages page_query
  history_bounded =
      let (asked, answer) = history-ok in
      let (res₁, res₂, first, second, next, few) =
        has_next_exact r u.id size s history-member page (ground arith) (ground arith) in
      let same : res ≡ res₁ = ground (arith, answer, first) in
      (
        rw same few,
        ground (arith, asked),
        res₂,
        ground (arith, asked, second),
        ap (λ (x : PaginatedMessages). x.has_next) same ∙ next,
      )
