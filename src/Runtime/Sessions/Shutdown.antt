-- ===== src/Runtime/Sessions/Shutdown.antt =====
-- The end of the service: `RunService` after its context is done.
use rook_servicechannel_agen.Common.{String, none, ◌≡◌, refl, arith, ◌∙◌, ap, sym}
use rook_servicechannel_agen.Errors.{Error, text, wrap}
use rook_servicechannel_agen.Action.{
  Result, ok, err, try, wrap_error, wrap_error-ok, ◌>>=◌, >>=_ok, >>=-eq-ok,
}
use rook_servicechannel_agen.Host.{Host}
use rook_servicechannel_agen.Session.Store.{State}
use rook_servicechannel_agen.Runtime.State.{Agent, emit, session_ended}
use rook_servicechannel_agen.Runtime.Manager.{stop_heartbeat_loop, snapshot_of}
use rook_servicechannel_agen.Runtime.Calls.{
  resolve_pin, snapshot, load_state, shut_down_loaded, shut_down_service, end_session_for_pin,
}
use rook_servicechannel_agen.Runtime.Heartbeat.{
  IsValid, stop_heartbeat_loop-silent, stop_heartbeat_loop-ok,
}
use rook_servicechannel_agen.Session.Files.{Laws}
use rook_servicechannel_agen.Runtime.Sessions.{
  IsGone, end_session_for_pin-Ended, resolve_pin-IsGone, snapshot-IsGone,
}
use rook_servicechannel_agen.Runtime.Heartbeat.Steps.{live, live-none}

module _ {W : Type 0} (host : Host W) where
  end_session_for_pin-loops :
      (pin : String) (a : Agent W) → (end_session_for_pin host pin a).1.loops ≡ a.loops
  unfolding end_session_for_pin
  end_session_for_pin-loops pin a = ground arith

  shut_down_loaded-loops :
      (r : Result State) (c : Agent W) → (shut_down_loaded host r c).1.loops ≡ c.loops
  shut_down_loaded-loops (err e) c = ground arith
  shut_down_loaded-loops (ok state) c =
      ground (arith, end_session_for_pin-loops state.session.pin c)

  shut_down_service-loops :
      (a : Agent W)
      → (shut_down_service host a).1.loops ≡ (stop_heartbeat_loop (load_state host a).1).1.loops
  unfolding shut_down_service
  shut_down_service-loops a =
      let loaded = load_state host a in
      let u = loaded.1 in
      let c = (stop_heartbeat_loop u).1 in
      ap (λ p. p.1.loops)
        (>>=_ok stop_heartbeat_loop (λ _. shut_down_loaded host loaded.0) u
          (stop_heartbeat_loop-ok u))
      ∙ shut_down_loaded-loops loaded.0 c

  -- From a valid state, no heartbeat loop is live after the shutdown of the service, whatever it
  -- returns.
  pub shut_down_service-silent :
      (a : Agent W) → IsValid a → live (shut_down_service host a).1.loops ≡ 0
  shut_down_service-silent a v =
      let u = (load_state host a).1 in
      let (_, all, _) =
        stop_heartbeat_loop-silent u (record { reached = v.reached; fresh = v.fresh }) in
      rw (shut_down_service-loops a) (live-none (stop_heartbeat_loop u).1.loops all)

module _ {W : Type 0} (host : Host W) (laws : Laws host) where
  pub shut_down_loaded-IsGone :
      (state : State) (c b : Agent W)
      → shut_down_loaded host (ok state) c ≡ (ok tt, b)
      → IsGone host b
  shut_down_loaded-IsGone state c b e =
      let pin = state.session.pin in
      let before : Error → Error = λ x. wrap "shutdown active session: " x "" in
      let (_, d, ended, told) =
        >>=-eq-ok (wrap_error before (end_session_for_pin host pin)) (λ _. emit (session_ended pin))
          c e in
      let done =
        wrap_error-ok before (end_session_for_pin host pin) c (end_session_for_pin host pin c) refl
          ended in
      let (gone, _, _) = end_session_for_pin-Ended host laws pin c d done in ground arith

  -- From a valid state, a shutdown that finds a session and succeeds leaves no session: no PIN is
  -- known any more, the snapshot shows no session, and no heartbeat loop is live.
  shut_down_service-gone :
      (a u b : Agent W) {state : State}
      → IsValid a
      → load_state host a ≡ (ok state, u)
      → shut_down_service host a ≡ (ok tt, b)
      → (resolve_pin host "" b
          ≡ (err (text "no active session state found; use start first or provide --pin"), b))
        × (snapshot host b ≡ (ok (snapshot_of b.manager none), b))
        × (live b.loops ≡ 0)
  unfolding shut_down_service
  shut_down_service-gone a u b {state} v l e =
      let (r, w, tried, rest) =
        >>=-eq-ok (try (load_state host))
          (λ loaded. stop_heartbeat_loop >>= λ _. shut_down_loaded host loaded) a e in
      let found : r ≡ ok state = ground arith in
      let (_, c, _, ended) =
        >>=-eq-ok stop_heartbeat_loop (λ _. shut_down_loaded host (ok state)) w
          (rw found at rest) in
      let gone = shut_down_loaded-IsGone state c b ended in
      (
        resolve_pin-IsGone host b gone,
        snapshot-IsGone host b gone,
        rw (sym (ap (λ p. live p.1.loops) e)) (shut_down_service-silent host a v),
      )
