-- ===== src/Handlers/Frame.antt =====
-- What the handlers of app/websocket/handlers.py leave alone.
use fastapi_realtime_chat.Prelude.{
  ℕ, ◌<◌, ◌≡◌, refl, ◌∙◌, Bool, true, false, ◌&&◌, Option, none, some, List, [], ◌∷◌, arith,
  if◌then◌else◌, Text, nat_eq, text_eq,
}
use fastapi_realtime_chat.Exec.{Result, ok, err, Exec, pure, lift, ◌>>=◌, continue}
use fastapi_realtime_chat.Sql.{Sql}
use fastapi_realtime_chat.Redis.{Redis}
use fastapi_realtime_chat.Models.{User, Fresh}
use fastapi_realtime_chat.Protocol.{Event}
use fastapi_realtime_chat.Backend.{Backend, publish, command}
use fastapi_realtime_chat.Rooms.{is_member, get_member}
use fastapi_realtime_chat.Messages.{create_with_sender, mark_read as mark_rows_read}
use fastapi_realtime_chat.Chat.{require_member, send_message, mark_messages_read}
use fastapi_realtime_chat.Presence.{
  TtlSettings, presence_key, typing_key, start_typing, stop_typing,
}
use fastapi_realtime_chat.Handlers.{
  Payload, Outside, Kind, chat_message, typing_start, typing_stop, mark_read, unknown, handler,
  handle_chat_message, handle_mark_read, mark_ids, mark_raw_ids, parse_ids, is_empty,
}

-- Whether two states have the same committed tables, Redis up in both or down in both, and, with a
-- time to live for typing above zero, the same presence keys now and later.
pub record Same {sql : Sql} {redis : Redis} (ttl : TtlSettings) (s s' : Backend sql redis)
    : Type 0 where
  pub committed : s'.committed ≡ s.committed
  pub redis_up : s'.redis_up ≡ s.redis_up
  pub presence :
      0 < ttl.typing_ttl_seconds
      → (v : Text) (d : ℕ)
      → redis.get (presence_key v) (redis.later d s'.store)
        ≡ redis.get (presence_key v) (redis.later d s.store)

pub Same-refl :
    {sql : Sql} {redis : Redis} (ttl : TtlSettings) (s : Backend sql redis) → Same ttl s s
Same-refl ttl s = record { committed = refl; redis_up = refl; presence = λ h v d. refl }

-- A coroutine that leaves these alone, whether it returns or raises.
pub record Keeps {sql : Sql} {redis : Redis} {A : Type 0} (ttl : TtlSettings)
    (m : Exec (Backend sql redis) A) : Type 0 where
  pub at : (s : Backend sql redis) → Same ttl s (m s).1

module _ {sql : Sql} {redis : Redis} (ttl : TtlSettings) {A : Type 0} where
  pub Keeps-pure : (a : A) → Keeps {sql = sql} {redis = redis} ttl (pure a)
  Keeps-pure a = record { at = λ s. Same-refl ttl s }

  pub Keeps-lift : (r : Result A) → Keeps {sql = sql} {redis = redis} ttl (lift r)
  Keeps-lift r = record { at = λ s. Same-refl ttl s }

module _ {sql : Sql} {redis : Redis} (ttl : TtlSettings) {A B : Type 0} where
  Keeps-continue :
      (r : Result A) (f : A → Exec (Backend sql redis) B)
      → ((a : A) → Keeps ttl (f a))
      → Keeps ttl (continue r f)
  Keeps-continue (ok a) f k = k a
  Keeps-continue (err e) f k = record { at = λ s. Same-refl ttl s }

  pub Keeps-bind :
      (m : Exec (Backend sql redis) A) (f : A → Exec (Backend sql redis) B)
      → Keeps ttl m
      → ((a : A) → Keeps ttl (f a))
      → Keeps ttl (m >>= f)
  Keeps-bind m f km kf = record {
    at = λ s.
        let first = km.at s in
        let rest = (Keeps-continue (m s).0 f kf).at (m s).1 in
        record {
          committed = rest.committed ∙ first.committed;
          redis_up = rest.redis_up ∙ first.redis_up;
          presence = λ h v d. rest.presence h v d ∙ first.presence h v d;
        };
  }

module _ {sql : Sql} {redis : Redis} (ttl : TtlSettings) where
  Keeps-publish :
      (channel : Text) (event : Event)
      → Keeps {sql = sql} {redis = redis} ttl (publish channel event)
  Keeps-publish channel event = record { at = λ s. ground arith }

  -- A presence key is no typing key.
  Keeps-setex_typing :
      (r u name : Text)
      → Keeps {sql = sql} {redis = redis} ttl
          (command (redis.setex (typing_key r u) ttl.typing_ttl_seconds name))
  Keeps-setex_typing r u name = record {
    at = λ s. record {
      committed = ground arith;
      redis_up = ground arith;
      presence = λ h v d. ground (
        arith,
        redis.get-later-setex d (presence_key v) (typing_key r u) ttl.typing_ttl_seconds name
            s.store h,
      );
    };
  }

  Keeps-del_typing :
      (r u : Text) → Keeps {sql = sql} {redis = redis} ttl (command (redis.del (typing_key r u)))
  Keeps-del_typing r u = record {
    at = λ s. record {
      committed = ground arith;
      redis_up = ground arith;
      presence =
          λ h v d. ground (arith, redis.get-later-del d (presence_key v) (typing_key r u) s.store);
    };
  }

  Keeps-require_member : (r u : ℕ) → Keeps {sql = sql} {redis = redis} ttl (require_member r u)
  unfolding require_member is_member get_member
  Keeps-require_member r u = record { at = λ s. ground arith }

  Keeps-create_with_sender :
      (fresh : Fresh) (r u : ℕ) (c i : Option Text)
      → Keeps {sql = sql} {redis = redis} ttl (create_with_sender fresh r u c i)
  unfolding create_with_sender
  Keeps-create_with_sender fresh r u c i = record { at = λ s. ground arith }

  Keeps-mark_rows_read :
      (fresh : ℕ → Fresh) (ids : List ℕ) (u : ℕ)
      → Keeps {sql = sql} {redis = redis} ttl (mark_rows_read fresh ids u)
  unfolding mark_rows_read
  Keeps-mark_rows_read fresh ids u = record { at = λ s. ground arith }

ruleset keeps_rules = (
  Keeps-pure, Keeps-lift, Keeps-bind, Keeps-publish, Keeps-setex_typing, Keeps-del_typing,
  Keeps-require_member, Keeps-create_with_sender, Keeps-mark_rows_read,
)

module _ {sql : Sql} {redis : Redis} (ttl : TtlSettings) where
  Keeps-send_message :
      (fresh : Fresh) (r u : ℕ) (c i : Option Text)
      → Keeps {sql = sql} {redis = redis} ttl (send_message fresh r u c i)
  unfolding send_message
  Keeps-send_message fresh r u c i = search keeps_rules

  Keeps-mark_messages_read :
      (fresh : ℕ → Fresh) (r u : ℕ) (ids : List ℕ)
      → Keeps {sql = sql} {redis = redis} ttl (mark_messages_read fresh r u ids)
  unfolding mark_messages_read
  Keeps-mark_messages_read fresh r u ids = search keeps_rules

module _ {sql : Sql} {redis : Redis} (ttl : TtlSettings) {A : Type 0} where
  Keeps-if :
      (b : Bool) (m n : Exec (Backend sql redis) A)
      → Keeps ttl m
      → Keeps ttl n
      → Keeps ttl (if b then m else n)
  Keeps-if true m n km kn = km
  Keeps-if false m n km kn = kn

module _ {sql : Sql} {redis : Redis} (out : Outside) (u : User) (room : Text) where
  Keeps-mark_ids :
      (ids : Option (List ℕ))
      → Keeps {sql = sql} {redis = redis} out.settings (mark_ids out ids u room)
  Keeps-mark_ids none = search keeps_rules
  Keeps-mark_ids (some ids) = search (keeps_rules, Keeps-mark_messages_read)

  Keeps-mark_raw_ids :
      (ids : Option (List Text))
      → Keeps {sql = sql} {redis = redis} out.settings (mark_raw_ids out ids u room)
  Keeps-mark_raw_ids none = search keeps_rules
  Keeps-mark_raw_ids (some []) = search keeps_rules
  Keeps-mark_raw_ids (some (t ∷ ts)) = Keeps-mark_ids (parse_ids (t ∷ ts))

  -- No handler commits, and none changes whether Redis is up, whether it returns or raises.
  pub Keeps-handler :
      (kind : Kind) (payload : Payload)
      → Keeps {sql = sql} {redis = redis} out.settings (handler out kind payload u room)
  unfolding handler handle_chat_message handle_mark_read start_typing stop_typing
  Keeps-handler chat_message payload =
      Keeps-if out.settings (is_empty payload.content && is_empty payload.image_url) _ _
        (search keeps_rules) (search (keeps_rules, Keeps-send_message))
  Keeps-handler typing_start payload = search keeps_rules
  Keeps-handler typing_stop payload = search keeps_rules
  Keeps-handler mark_read payload = Keeps-mark_raw_ids payload.message_ids
  Keeps-handler unknown payload = search keeps_rules
