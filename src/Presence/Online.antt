-- ===== src/Presence/Online.antt =====
-- Whom `get_online_users` of app/services/presence_service.py lists.
use fastapi_realtime_chat.Prelude.{
  ℕ, ◌<◌, ◌≡◌, inl, inr, Bool, true, false, ◌&&◌, Option, none, some, List, [], ◌∷◌, ◌++◌, arith,
  ltb, nat_beq_iff, if◌then◌else◌, Bool-cases, Option-cases, is_some, ◌==◌, Text, codes,
  text_beq_iff, nat_eq, text_eq, beq_refl, strip_prefix, strip_prefix-append, count,
}
use fastapi_realtime_chat.Exec.{ok}
use fastapi_realtime_chat.Sql.{Sql}
use fastapi_realtime_chat.Redis.{Redis}
use fastapi_realtime_chat.Backend.{Backend}
use fastapi_realtime_chat.Presence.{
  TtlSettings, OnlineUser, presence_key, remove_prefix, listed, set_online, get_online_users,
}
use fastapi_realtime_chat.Presence.Heartbeat.{wait, beats, name_until, up_until}

-- Whether a name is stored, and is not empty.
abbrev pub is_name : Text → Option Text → Bool
is_name n none = false
is_name n (some []) = false
is_name n (some (c ∷ s)) = (c ∷ s) == n

abbrev prefix : Text
prefix = codes "presence:"

strip_prefix-beq :
    (p u k rest : Text) → strip_prefix p k ≡ some rest → (k == (p ++ u)) ≡ (rest == u)
unfolding strip_prefix
strip_prefix-beq [] u k rest h = ground arith
strip_prefix-beq (c ∷ p) u [] rest h = absurd (ground arith)
strip_prefix-beq (c ∷ p) u (d ∷ k) rest h =
    ground (arith, strip_prefix-beq p u k rest, nat_beq_iff c d, nat_beq_iff d c)

-- All keys of a list have the prefix.
abbrev AllPrefixed : List Text → Type 0
AllPrefixed [] = Unit
AllPrefixed (k ∷ ks) = (is_some (strip_prefix prefix k) ≡ true) × AllPrefixed ks

AllPrefixed-of_count :
    (ks : List Text)
    → ((j : Text) → is_some (strip_prefix prefix j) ≡ false → count (λ k. k == j) ks ≡ 0)
    → AllPrefixed ks
AllPrefixed-of_count [] h = tt
AllPrefixed-of_count (k ∷ ks) h = (
  elim (Bool-cases (is_some (strip_prefix prefix k))) [
    | inl e ↦ e
    | inr e ↦ absurd (ground (arith, h k e, beq_refl {A = Text} k))
  ],
  AllPrefixed-of_count ks (λ j e. omega (arith, h j e)),
)

-- The users of a list with an id and a name.
abbrev pub is_user : (user_id username : Text) → OnlineUser → Bool
is_user u n o = o.user_id == u && o.username == n

count-listed :
    (name_of : Text → Option Text) (u n : Text) (ks : List Text)
    → AllPrefixed ks
    → count (is_user u n) (listed (remove_prefix prefix) name_of ks)
      ≡ (if is_name n (name_of (presence_key u)) then count (λ k. k == presence_key u) ks else 0)
count-listed name_of u n [] h = ground arith
count-listed name_of u n (k ∷ ks) h =
    let rest = count-listed name_of u n ks h.1 in
    elim (Option-cases (strip_prefix prefix k)) [
      | inl e ↦ absurd (ground (arith, h.0))
      | inr (id, e) ↦
          let here = strip_prefix-beq prefix u k id e in
          let key = text_beq_iff k (presence_key u) in ground (arith, rest, here, key)
    ]

module _ {sql : Sql} {redis : Redis} where
  module _ (s : Backend sql redis) (up : s.redis_up ≡ true) where
    -- With Redis up, `get_online_users` lists a user with a name once if Redis has that name under
    -- the user's key and it is not empty, and never otherwise.
    pub get_online_users_lem :
        (us : List OnlineUser) × ((get_online_users s).0 ≡ ok us)
        × ((u n : Text)
            → count (is_user u n) us
              ≡ (if is_name n (redis.get (presence_key u) s.store) then 1 else 0))
    unfolding get_online_users
    get_online_users_lem =
        let name_of = λ (k : Text). redis.get k s.store in
        let ks = redis.keys prefix s.store in
        let all =
          AllPrefixed-of_count ks (λ j e. ground (arith, redis.count-keys prefix j s.store)) in
        (
          listed (remove_prefix prefix) name_of ks,
          ground (arith, up),
          λ u n. ground (
            arith,
            count-listed name_of u n ks all,
            redis.count-keys prefix (presence_key u) s.store,
            strip_prefix-append prefix u,
          ),
        )

  -- With Redis up, a time to live above zero and a name: after `set_online` and any number of
  -- heartbeats the user is listed, once and under that name only, for exactly the time to live
  -- after the last of them.
  pub listed_until :
      (settings : TtlSettings) (u name n : Text) (interval k d : ℕ) (s : Backend sql redis)
      → 0 < settings.presence_ttl_seconds
      → (name == []) ≡ false
      → s.redis_up ≡ true
      → (us : List OnlineUser) × ((get_online_users
            (wait d (beats settings u name interval k (set_online settings u name s).1))).0
          ≡ ok us)
        × (count (is_user u n) us
            ≡ (if ltb d settings.presence_ttl_seconds && name == n then 1 else 0))
  listed_until settings u name n interval k d s positive named up =
      let s' = wait d (beats settings u name interval k (set_online settings u name s).1) in
      let (us, answer, each) =
        get_online_users_lem s' (up_until settings positive u name interval k s up) in
      (us, answer, ground (arith, each u n, name_until settings positive u name interval k d s up))
