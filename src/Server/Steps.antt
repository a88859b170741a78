-- ===== src/Server/Steps.antt =====
-- Every step of Server keeps its invariant.
use fastapi_realtime_chat.Prelude.{
  ◌+◌, ◌<◌, sym, ap, ◌∙◌, inl, inr, arith, Bool-cases, is_some, ◌==◌, nat_eq, text_eq,
}
use fastapi_realtime_chat.Uuid
use fastapi_realtime_chat.Sql.{Sql}
use fastapi_realtime_chat.Redis.{Redis}
use fastapi_realtime_chat.Users.{update_last_seen}
use fastapi_realtime_chat.Presence.{TtlSettings, presence_key}
use fastapi_realtime_chat.Presence.Stored.{
  stored-set_online, stored-refresh, stored-set_offline, up-set_online, up-refresh, up-set_offline,
}
use fastapi_realtime_chat.ConnectionManager.Laws.{
  registered, registered-connect, registered-disconnect, registered-drop_stale,
}
use fastapi_realtime_chat.ConnectionManager.Consistent.{
  connect-IsConsistent, disconnect-IsConsistent, drop_stale-IsConsistent,
}
use fastapi_realtime_chat.Handlers.{Outside}
use fastapi_realtime_chat.WebSocket.Dispatch.{turn-Frame, turn-presence}
use fastapi_realtime_chat.Server.{
  Server, Step, Reach, here, next, writes, entered, serving, leaving, departed, failed, ended,
  unknown_room, not_member, enters, announces, takes, beats, leaves, fails, signs_off, ends, drops,
  passes,
}
use fastapi_realtime_chat.Server.Invariant.{Inv, holds, shows, Inv-update, Inv-beside}

module _ {sql : Sql} {redis : Redis} (out : Outside)
    (presence_positive : 0 < out.settings.presence_ttl_seconds)
    (typing_positive : 0 < out.settings.typing_ttl_seconds) where
  Step-Inv : {s t : Server sql redis} → Step out s t → Inv s → Inv t
  unfolding update_last_seen holds shows
  Step-Inv {s} (unknown_room ws room_id e parsed) inv =
      Inv-update _ ws ended inv inv.up inv.consistent (λ r v ws' e'. inl (e', ground arith))
        (λ v d e'. inl (e', ground arith))
  Step-Inv {s} (not_member ws u room_id room e parsed out_of) inv =
      Inv-update _ ws ended inv inv.up inv.consistent (λ r v ws' e'. inl (e', ground arith))
        (λ v d e'. inl (e', ground arith))
  Step-Inv {s} (enters ws u room_id room e parsed member) inv =
      let uid = Uuid.str u.id in
      Inv-update _ ws (entered u room_id) inv inv.up
        (connect-IsConsistent ws room_id uid s.process.manager inv.consistent)
        (λ r v ws' e'. ground (arith, registered-connect room_id uid r v s.process.manager ws))
        (λ v d e'. inl (e', ground arith))
  Step-Inv {s} (announces ws u room_id e) inv =
      let b = s.process.backend in
      Inv-update _ ws (serving u room_id) inv
        (up-set_online out.settings (Uuid.str u.id) u.username b inv.up) inv.consistent
        (λ r v ws' e'. inl (e', ground arith))
        (λ v d e'. ground (
          arith,
          stored-set_online out.settings presence_positive (Uuid.str u.id) u.username b inv.up v d,
        ))
  Step-Inv {s} (takes ws u room_id payload e) inv =
      let frame = turn-Frame out ws u room_id payload s.process in
      Inv-beside _ inv (frame.1 ∙ inv.up) (rw (frame.0) inv.consistent)
        (λ r v ws' e'. ap (registered r v) (sym frame.0) ∙ e')
        (λ v d e'. inl (
          d,
          ap is_some (sym (turn-presence out ws u room_id typing_positive payload s.process v d))
              ∙ e',
        ))
  Step-Inv {s} (beats ws u room_id e) inv =
      let b = s.process.backend in
      Inv-beside _ inv (up-refresh out.settings (Uuid.str u.id) u.username b inv.up) inv.consistent
        (λ r v ws' e'. e')
        (λ v d e'.
          let stored =
            stored-refresh out.settings presence_positive (Uuid.str u.id) u.username b inv.up v d in
          elim (Bool-cases (Uuid.str u.id == v)) [
            | inl me ↦ inr (ws, rw e me)
            | inr other ↦ inl (d, ground (arith, stored))
          ])
  Step-Inv {s} (leaves ws u room_id e) inv =
      let uid = Uuid.str u.id in
      Inv-update _ ws (leaving u room_id) inv inv.up
        (disconnect-IsConsistent room_id uid s.process.manager inv.consistent)
        (λ r v ws' e'. ground (arith, registered-disconnect room_id uid r v s.process.manager))
        (λ v d e'. inl (e', ground arith))
  Step-Inv {s} (fails ws u room_id e lost) inv =
      Inv-update _ ws (failed u) inv inv.up inv.consistent (λ r v ws' e'. inl (e', ground arith))
        (λ v d e'. inl (e', ground arith))
  Step-Inv {s} (signs_off ws u room_id e loaded) inv =
      let b = s.process.backend in
      Inv-update _ ws (departed u) inv (up-set_offline (Uuid.str u.id) u.username b inv.up)
        inv.consistent (λ r v ws' e'. inl (e', ground arith))
        (λ v d e'. ground (arith, stored-set_offline (Uuid.str u.id) u.username b inv.up v d))
  Step-Inv {s} (ends ws u e) inv =
      Inv-update _ ws ended inv inv.up inv.consistent (λ r v ws' e'. inl (e', ground arith))
        (λ v d e'. inl (e', ground arith))
  Step-Inv {s} (drops room_id stale sent) inv =
      Inv-beside _ inv inv.up
        (drop_stale-IsConsistent room_id stale s.process.manager inv.consistent)
        (λ r v ws' e'. ground (arith, registered-drop_stale room_id r v stale s.process.manager))
        (λ v d e'. inl (d, e'))
  Step-Inv {s} (passes seconds) inv =
      Inv-beside _ inv inv.up inv.consistent (λ r v ws' e'. e')
        (λ v d e'. inl (
          seconds + d,
          ap is_some
                (sym (redis.get-later-later d seconds (presence_key v) s.process.backend.store))
              ∙ e',
        ))

-- Every state that the tasks of a process reach, in whatever order they run, keeps the invariant.
pub Reach-Inv :
    {sql : Sql} {redis : Redis} (settings : TtlSettings)
    → 0 < settings.presence_ttl_seconds
    → 0 < settings.typing_ttl_seconds
    → {s t : Server sql redis} → Inv s
    → Reach settings s t
    → Inv t
Reach-Inv settings shows types inv here = inv
Reach-Inv settings shows types inv (next out e reach step) =
    Step-Inv out (rw e shows) (rw e types) step (Reach-Inv settings shows types inv reach)
Reach-Inv settings shows types inv (writes db committed published reach) =
    let before = Reach-Inv settings shows types inv reach in
    Inv-beside _ before before.up before.consistent (λ r v ws e. e) (λ v d e. inl (d, e))
