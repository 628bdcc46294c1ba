-- ===== src/App/Served/Stop.antt =====
-- The end of a session from the interactive mode of internal/app/app.go.
use rook_servicechannel_agen.Common.{String, false, none, [], ◌∷◌, ◌++◌, ◌≡◌, refl, ap, sym, ◌∙◌}
use rook_servicechannel_agen.Text.{is_empty, trim_space, fields_func, is_space, lowers_to}
use rook_servicechannel_agen.Errors.{text}
use rook_servicechannel_agen.Action.{ok, err, ◌>>=◌, >>=-eq-ok}
use rook_servicechannel_agen.Host.{Host}
use rook_servicechannel_agen.Session.Files.{Laws}
use rook_servicechannel_agen.Runtime.State.{Agent}
use rook_servicechannel_agen.Runtime.Calls.{resolve_pin}
use rook_servicechannel_agen.Runtime.Heartbeat.{IsValid}
use rook_servicechannel_agen.Runtime.Heartbeat.Steps.{live}
use rook_servicechannel_agen.Ipc.Contract.{stop_support, validate_request}
use rook_servicechannel_agen.Ipc.Server.{handle_request, dispatch, handle_stop_support}
use rook_servicechannel_agen.Ipc.Server.Support.{handle_stop_support-success}
use rook_servicechannel_agen.Ipc.Client.RoundTrip.{raw_response}
use rook_servicechannel_agen.App.{App, write_line}
use rook_servicechannel_agen.App.Requests.{demand, handle_word, handle_interactive_command}
use rook_servicechannel_agen.App.Served.Demand.{demand-answer}
use rook_servicechannel_agen.App.Served.{served, sent_request, answer_of, outcome-success}

module _ {W : Type 0} (host : Host W) (id : String) where
  handle_request-stop :
      (g : Agent W)
      → is_empty (trim_space id) ≡ false
      → handle_request host (sent_request host id stop_support none) g
        ≡ handle_stop_support host (sent_request host id stop_support none) g
  unfolding handle_request validate_request dispatch
  handle_request-stop g h = rw h refl

  stop-asks :
      (a : App (Agent W))
      → handle_interactive_command (served host id) "stop" a
        ≡ (demand (served host id) stop_support none >>= (λ _. write_line "session ended")) a
  unfolding handle_interactive_command handle_word lowers_to fields_func is_space
  stop-asks a = refl

  module _ (laws : Laws host) where
    -- An interactive "stop" that reports no error, over a connection to a service in a valid state
    -- whose requests have an id that is not blank: the service then knows no PIN, no heartbeat loop
    -- is live, and what is printed is that the session ended.
    pub handle_interactive_command-stop :
        (a b : App (Agent W))
        → is_empty (trim_space id) ≡ false
        → IsValid a.agent.world
        → handle_interactive_command (served host id) "stop" a ≡ (ok tt, b)
        → (resolve_pin host "" b.agent.world ≡ (
          err (text "no active session state found; use start first or provide --pin"),
          b.agent.world,
        ))
          × (live b.agent.world.loops ≡ 0)
          × (b.output ≡ a.output ++ "session ended\n" ∷ [])
    handle_interactive_command-stop a b named v e =
        let g = a.agent.world in
        let req = sent_request host id stop_support none in
        let (_, c, asked, wrote) =
          >>=-eq-ok (demand (served host id) stop_support none) (λ _. write_line "session ended") a
            (sym (stop-asks a) ∙ e) in
        let (h, left, printed) = demand-answer host id stop_support none a c asked in
        let r = answer_of host id stop_support g in
        let won =
          outcome-success (λ j. ok tt) tt stop_support _ (raw_response r.0.response) refl h in
        let handled = handle_request-stop g named in
        let done = ap (λ x. x.0.response.success) (sym handled) ∙ won in
        let (_, pin, none_live) = handle_stop_support-success host laws req g v done in
        let after : b.agent.world ≡ (handle_stop_support host req g).1 =
          sym (ap (λ x. x.1.agent.world) wrote) ∙ left ∙ ap (λ x. x.1) handled in
        (
          rw after pin,
          rw after none_live,
          sym (ap (λ x. x.1.output) wrote) ∙ ap (λ o. o ++ "session ended\n" ∷ []) printed,
        )
