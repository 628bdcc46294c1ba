-- ===== src/Ipc/Server/Support.antt =====
-- The requests that start and stop the support: what they report is what the agent then holds.
use rook_servicechannel_agen.Common.{
  String, Bool, true, none, some, [], ◌∷◌, ◌≡◌, refl, ap, ◌∙◌, arith,
}
use rook_servicechannel_agen.Errors.{text}
use rook_servicechannel_agen.Action.{Result, ok, err, Action as Call}
use rook_servicechannel_agen.Host.{Host}
use rook_servicechannel_agen.Session.Files.{Laws}
use rook_servicechannel_agen.Backend.Contract.{SupportSession, validate_session}
use rook_servicechannel_agen.Runtime.State.{Agent, Snapshot}
use rook_servicechannel_agen.Runtime.Manager.{start_heartbeat_loop, snapshot_of}
use rook_servicechannel_agen.Runtime.Calls.{begin_session, snapshot, stop_session, resolve_pin}
use rook_servicechannel_agen.Runtime.Heartbeat.{IsValid}
use rook_servicechannel_agen.Runtime.Heartbeat.Steps.{live}
use rook_servicechannel_agen.Runtime.Sessions.Start.{start-current}
use rook_servicechannel_agen.Runtime.Sessions.Stop.{stop_session-gone}
use rook_servicechannel_agen.Ipc.Contract.{Request, status, new_status_payload}
use rook_servicechannel_agen.Ipc.Server.{handle_start_support, handle_stop_support}
use rook_servicechannel_agen.Ipc.Reply.{
  Reply, Handler, answer_with, or_refuse, error_response, success_response, accept, reply,
  support_state_event, pin_event,
}

module _ {W : Type 0} (req : Request) where
  -- A handler that reports a success went on after its call.
  answer_with-success :
      {A : Type 0} (code : String) (raise : Bool) (k : A → Handler W) (r : Result A) (b : Agent W)
      → (answer_with req code raise k r b).0.response.success ≡ true
      → (x : A) × (r ≡ ok x) × (answer_with req code raise k r b ≡ k x b)
  unfolding error_response
  answer_with-success code raise k (ok x) b h = (x, refl, refl)
  answer_with-success code raise k (err e) b h = ground arith

  pub or_refuse-success :
      {A : Type 0} (code : String) (raise : Bool) (m : Call (Agent W) A) (k : A → Handler W)
      (a : Agent W)
      → (or_refuse req code raise m k a).0.response.success ≡ true
      → (x : A) × (b : Agent W) × (m a ≡ (ok x, b)) × (or_refuse req code raise m k a ≡ k x b)
  or_refuse-success code raise m k a h =
      let (x, e, same) = answer_with-success code raise k (m a).0 (m a).1 h in
      (x, (m a).1, ap (λ r. (r, (m a).1)) e, same)

  pub or_refuse-ok :
      {A : Type 0} (code : String) (raise : Bool) (m : Call (Agent W) A) (k : A → Handler W)
      (a : Agent W) {x : A} {b : Agent W}
      → m a ≡ (ok x, b)
      → or_refuse req code raise m k a ≡ k x b
  or_refuse-ok code raise m k a e = ap (λ p. answer_with req code raise k p.0 p.1) e

module _ {W : Type 0} (host : Host W) where
  start_support-begun :
      (req : Request) (a : Agent W)
      → (handle_start_support host req a).0.response.success ≡ true
      → (s : SupportSession) × (u : Agent W) × (begin_session host a ≡ (ok s, u))
  unfolding handle_start_support
  start_support-begun req a h =
      let (s, u, begun, _) =
        or_refuse-success req "start_support_failed" true (begin_session host) _ a h in
      (s, u, begun)

  abbrev started_reply : Request → SupportSession → Snapshot → Reply
  started_reply req s snap =
      accept req (status (new_status_payload snap))
        (support_state_event snap ∷ pin_event s.pin ∷ [])

  start_support-replies :
      (req : Request) (a u : Agent W) {s : SupportSession} {snap : Snapshot}
      → begin_session host a ≡ (ok s, u)
      → let b = (start_heartbeat_loop s.pin u).1 in
        snapshot host b ≡ (ok snap, b)
        → handle_start_support host req a ≡ (started_reply req s snap, b)
  unfolding handle_start_support
  start_support-replies req a u {s} begun shown =
      or_refuse-ok req "start_support_failed" true (begin_session host) _ a begun
      ∙ or_refuse-ok req "status_failed" true (snapshot host)
          (λ snap. reply (started_reply req s snap)) (start_heartbeat_loop s.pin u).1 shown

  stop_support-stopped :
      (req : Request) (a : Agent W)
      → (handle_stop_support host req a).0.response.success ≡ true
      → (u : Agent W) × (stop_session host "" a ≡ (ok tt, u))
  unfolding handle_stop_support
  stop_support-stopped req a h =
      let (_, u, stopped, _) =
        or_refuse-success req "stop_support_failed" true (stop_session host "") _ a h in
      (u, stopped)

  stop_support-replies :
      (req : Request) (a u : Agent W) {snap : Snapshot}
      → stop_session host "" a ≡ (ok tt, u)
      → snapshot host u ≡ (ok snap, u)
      → handle_stop_support host req a ≡ (accept req (status (new_status_payload snap)) [], u)
  unfolding handle_stop_support
  stop_support-replies req a u stopped shown =
      or_refuse-ok req "stop_support_failed" true (stop_session host "") _ a stopped
      ∙ or_refuse-ok req "status_failed" true (snapshot host)
          (λ snap. reply (accept req (status (new_status_payload snap)) [])) u shown

module _ {W : Type 0} (host : Host W) (laws : Laws host) where
  -- A request to start the support that reports a success reports the session that the agent now
  -- holds, if the agent was in a valid state: the session is valid, the response and the first
  -- event show it, the second event has its PIN, its PIN is the one used where none is given, and
  -- one heartbeat loop is live.
  pub handle_start_support-success :
      (req : Request) (a : Agent W)
      → IsValid a
      → let r = handle_start_support host req a in
        r.0.response.success ≡ true
        → (s : SupportSession) × (validate_session s ≡ none)
          × (r.0.response.payload
              ≡ some (status (new_status_payload (snapshot_of r.1.manager (some s)))))
          × (r.0.events
              ≡ support_state_event (snapshot_of r.1.manager (some s)) ∷ pin_event s.pin ∷ [])
          × (resolve_pin host "" r.1 ≡ (ok s.pin, r.1))
          × (live r.1.loops ≡ 1)
  unfolding success_response
  handle_start_support-success req a v h =
      let (s, u, begun) = start_support-begun host req a h in
      let (valid, pin, shown, one) = start-current host laws a u v begun in
      rw (start_support-replies host req a u begun shown) (s, valid, refl, refl, pin, one)

  -- A request to stop the support that reports a success reports that there is no session, if the
  -- agent was in a valid state: the response shows none, no PIN is known any more, and no
  -- heartbeat loop is live.
  pub handle_stop_support-success :
      (req : Request) (a : Agent W)
      → IsValid a
      → let r = handle_stop_support host req a in
        r.0.response.success ≡ true
        → (r.0.response.payload ≡ some (status (new_status_payload (snapshot_of r.1.manager none))))
          × (resolve_pin host "" r.1
              ≡ (err (text "no active session state found; use start first or provide --pin"), r.1))
          × (live r.1.loops ≡ 0)
  unfolding success_response
  handle_stop_support-success req a v h =
      let (u, stopped) = stop_support-stopped host req a h in
      let (unknown, shown, _, none_live) = stop_session-gone host laws "" a u v stopped in
      rw (stop_support-replies host req a u stopped shown) (refl, unknown, none_live)
