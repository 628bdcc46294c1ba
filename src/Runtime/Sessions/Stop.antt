-- ===== src/Runtime/Sessions/Stop.antt =====
-- Stopping a session: `StopSession`.
use rook_servicechannel_agen.Common.{String, none, ◌≡◌, arith, ◌∙◌, sym, ap}
use rook_servicechannel_agen.Errors.{text}
use rook_servicechannel_agen.Action.{ok, err, ◌>>=◌, >>=_ok, >>=-eq-ok}
use rook_servicechannel_agen.Host.{Host}
use rook_servicechannel_agen.Session.Files.{Laws}
use rook_servicechannel_agen.Runtime.State.{Agent}
use rook_servicechannel_agen.Runtime.Manager.{snapshot_of, stop_heartbeat_loop}
use rook_servicechannel_agen.Runtime.Calls.{snapshot, resolve_pin, stop_session, stop_with}
use rook_servicechannel_agen.Runtime.Heartbeat.{
  IsValid, stop_heartbeat_loop-ok, stop_heartbeat_loop-silent,
}
use rook_servicechannel_agen.Runtime.Heartbeat.Steps.{live, live-none}
use rook_servicechannel_agen.Runtime.Sessions.Start.{stop_loop-keeps}
use rook_servicechannel_agen.Runtime.Sessions.{
  IsGone, stop_with-Ended, resolve_pin-IsGone, snapshot-IsGone,
}

module _ {W : Type 0} (host : Host W) where
  resolve_pin-keeps :
      (pin_override : String) (a u : Agent W) {pin : String}
      → resolve_pin host pin_override a ≡ (ok pin, u)
      → IsValid a
      → IsValid u
  unfolding resolve_pin
  resolve_pin-keeps pin_override a u e v =
      let manager : u.manager ≡ a.manager = ground arith in
      let loops : u.loops ≡ a.loops = ground arith in
      let next : u.next_loop ≡ a.next_loop = ground arith in
      record { reached = rw (manager, loops) v.reached; fresh = rw (next, loops) v.fresh }

module _ {W : Type 0} (host : Host W) (laws : Laws host) where
  -- From a valid state, a session that was stopped is gone: no PIN is known any more, the snapshot
  -- shows no session, and no heartbeat loop is live.
  pub stop_session-gone :
      (pin_override : String) (a b : Agent W)
      → IsValid a
      → stop_session host pin_override a ≡ (ok tt, b)
      → (resolve_pin host "" b
          ≡ (err (text "no active session state found; use start first or provide --pin"), b))
        × (snapshot host b ≡ (ok (snapshot_of b.manager none), b))
        × (b.manager.heartbeat_cancel ≡ none)
        × (live b.loops ≡ 0)
  unfolding stop_session
  stop_session-gone pin_override a b v e =
      let (pin, u, resolved, rest) =
        >>=-eq-ok (resolve_pin host pin_override)
          (λ pin. stop_heartbeat_loop >>= λ _. stop_with host pin) a e in
      let valid = resolve_pin-keeps host pin_override a u resolved v in
      let c = (stop_heartbeat_loop u).1 in
      let (none_left, all, fresh) = stop_heartbeat_loop-silent u valid in
      let ended =
        sym (>>=_ok stop_heartbeat_loop (λ _. stop_with host pin) u (stop_heartbeat_loop-ok u))
        ∙ rest in
      let (gone, same, loops) = stop_with-Ended host laws pin c b ended in
      (
        resolve_pin-IsGone host b gone,
        snapshot-IsGone host b gone,
        rw same none_left,
        rw loops (live-none c.loops all),
      )

  -- What is left of the state file, by the manager and the world alone.
  pub stop_session-IsGone :
      (pin_override : String) (a b : Agent W)
      → IsValid a
      → stop_session host pin_override a ≡ (ok tt, b)
      → IsGone host b × (b.manager.state_store ≡ a.manager.state_store)
  unfolding stop_session
  stop_session-IsGone pin_override a b v e =
      let (pin, u, resolved, rest) =
        >>=-eq-ok (resolve_pin host pin_override)
          (λ pin. stop_heartbeat_loop >>= λ _. stop_with host pin) a e in
      let c = (stop_heartbeat_loop u).1 in
      let ended =
        sym (>>=_ok stop_heartbeat_loop (λ _. stop_with host pin) u (stop_heartbeat_loop-ok u))
        ∙ rest in
      let (gone, same, _) = stop_with-Ended host laws pin c b ended in
      let kept : c.manager.state_store ≡ u.manager.state_store =
        unfold stop_heartbeat_loop in (stop_loop-keeps u.manager.heartbeat_cancel u).1 in
      let first : u.manager ≡ a.manager = unfold resolve_pin in ground arith in
      (gone, ap (λ m. m.state_store) same ∙ kept ∙ ap (λ m. m.state_store) first)
