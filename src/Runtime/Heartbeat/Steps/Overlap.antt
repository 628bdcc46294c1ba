-- ===== src/Runtime/Heartbeat/Steps/Overlap.antt =====
-- Two starts that overlap: `StartHeartbeatLoop` stops the old loop under one lock of its mutex and
-- stores the new cancel function under another, so a second start may come between the two.
use rook_servicechannel_agen.Common.{
  ℕ, suc, ◌+◌, String, none, List, [], ◌∷◌, ◌≡◌, refl, arith, All, ap,
}
use rook_servicechannel_agen.Runtime.State.{Loop, Agent}
use rook_servicechannel_agen.Runtime.Manager.{stop_heartbeat_loop, install, cancel_loop}
use rook_servicechannel_agen.Runtime.Heartbeat.{
  IsReached, IsValid, stop_heartbeat_loop-silent, stop_heartbeat_loop-IsValid,
}
use rook_servicechannel_agen.Runtime.Heartbeat.Steps.{live, live-none}

-- Both starts have stopped the old loop before one of them goes on.
abbrev pub overlapping_starts : {W : Type 0} → String → String → Agent W → Agent W
overlapping_starts p q a =
    let b = (stop_heartbeat_loop a).1 in
    let c = (stop_heartbeat_loop b).1 in let d = (install p c).1 in (install q d).1

live-cancel : (id : ℕ) (r : List Loop) → All (IsReached none) r → live (cancel_loop id r) ≡ 0
live-cancel id [] h = refl
live-cancel id (l ∷ r) h = ground (arith, live-cancel id r h.1)

module _ {W : Type 0} where
  stop-install :
      (p q : String) (c : Agent W)
      → All (IsReached none) c.loops
      → live (stop_heartbeat_loop (install q (install p c).1).1).1.loops ≡ 1
  unfolding stop_heartbeat_loop
  stop-install p q c h = ground (arith, live-cancel (c.next_loop + 1) c.loops h)

  -- From a valid state, two starts that overlap leave two loops live, and a stop after them
  -- cancels only one of the two.
  pub overlapping_starts-leak :
      (p q : String) (a : Agent W)
      → IsValid a
      → let d = overlapping_starts p q a in
        (live d.loops ≡ 2) × (live (stop_heartbeat_loop d).1.loops ≡ 1)
  overlapping_starts-leak p q a v =
      let b = (stop_heartbeat_loop a).1 in
      let (gone, all, fresh) = stop_heartbeat_loop-silent b (stop_heartbeat_loop-IsValid a v) in
      let c = (stop_heartbeat_loop b).1 in
      (ap (λ n. suc (suc n)) (live-none c.loops all), stop-install p q c all)
