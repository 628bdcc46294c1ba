-- ===== src/Runtime/Sessions/Start.antt =====
-- Starting a session and its heartbeats, as the request for support does.
use rook_servicechannel_agen.Common.{ℕ, String, Option, none, some, ◌≡◌, refl, arith}
use rook_servicechannel_agen.Action.{ok}
use rook_servicechannel_agen.Host.{Host}
use rook_servicechannel_agen.Session.Files.{Laws}
use rook_servicechannel_agen.Backend.Contract.{SupportSession, validate_session}
use rook_servicechannel_agen.Runtime.State.{Agent}
use rook_servicechannel_agen.Runtime.Manager.{
  start_heartbeat_loop, stop_heartbeat_loop, stop_loop, snapshot_of,
}
use rook_servicechannel_agen.Runtime.Calls.{
  begin_session, snapshot, save_session, current_boot_id, resolve_pin,
}
use rook_servicechannel_agen.Runtime.Heartbeat.{IsValid, start_heartbeat_loop-launch}
use rook_servicechannel_agen.Runtime.Heartbeat.Steps.{live, live-start}
use rook_servicechannel_agen.Runtime.Sessions.{
  Holds, begin_session-Holds, begin_session-current, snapshot-Holds, resolve_pin-Holds,
}

module _ {W : Type 0} where
  -- A start of the heartbeats leaves the world and the store alone.
  pub stop_loop-keeps :
      (cancel : Option ℕ) (a : Agent W)
      → let b = (stop_loop cancel a).1 in
        (b.world ≡ a.world) × (b.manager.state_store ≡ a.manager.state_store)
  stop_loop-keeps none a = (refl, refl)
  stop_loop-keeps (some id) a = (refl, refl)

  pub start-keeps :
      (pin : String) (a : Agent W)
      → let b = (start_heartbeat_loop pin a).1 in
        (b.world ≡ a.world) × (b.manager.state_store ≡ a.manager.state_store)
  start-keeps pin a =
      rw (start_heartbeat_loop-launch pin a)
        (unfold stop_heartbeat_loop in stop_loop-keeps a.manager.heartbeat_cancel a)

module _ {W : Type 0} (host : Host W) where
  begin_session-IsValid :
      (a b : Agent W) {s : SupportSession}
      → begin_session host a ≡ (ok s, b)
      → IsValid a
      → IsValid b
  unfolding begin_session save_session current_boot_id
  begin_session-IsValid a b e v =
      let manager : b.manager ≡ a.manager = ground arith in
      let loops : b.loops ≡ a.loops = ground arith in
      let next : b.next_loop ≡ a.next_loop = ground arith in
      record { reached = rw (manager, loops) v.reached; fresh = rw (next, loops) v.fresh }

  start-Holds :
      (pin : String) (a : Agent W) {s : SupportSession}
      → Holds host a s
      → Holds host (start_heartbeat_loop pin a).1 s
  start-Holds pin a h =
      let (world, store) = start-keeps pin a in
      record { boot_id = h.boot_id; loaded = rw (world, store) h.loaded }

module _ {W : Type 0} (host : Host W) (laws : Laws host) where
  -- From a valid state, after a start of a session and of its heartbeats the session is valid, is
  -- the current one, and one heartbeat loop is live.
  pub start-current :
      (a u : Agent W) {s : SupportSession}
      → IsValid a
      → begin_session host a ≡ (ok s, u)
      → let b = (start_heartbeat_loop s.pin u).1 in
        (validate_session s ≡ none)
        × (resolve_pin host "" b ≡ (ok s.pin, b))
        × (snapshot host b ≡ (ok (snapshot_of b.manager (some s)), b))
        × (live b.loops ≡ 1)
  start-current a u {s} v e =
      let held = start-Holds host s.pin u (begin_session-Holds host laws a u e) in
      let b = (start_heartbeat_loop s.pin u).1 in
      (
        (begin_session-current host laws a u e).0,
        resolve_pin-Holds host b held,
        snapshot-Holds host b held,
        live-start s.pin u (begin_session-IsValid host a u e v),
      )
