-- ===== src/App/Served.antt =====
-- The interactive mode of internal/app/app.go with the service at the other end of its connection.
pub mod Demand
pub mod Stop
pub mod Connect
use rook_servicechannel_agen.Common.{
  String, Bool, true, false, Option, none, some, [], ◌∷◌, ◌++◌, ◌≡◌, refl, ap, ap₂, sym, ◌∙◌, arith,
}
use rook_servicechannel_agen.Text.{is_empty, trim_space, fields_func, is_space, lowers_to}
use rook_servicechannel_agen.Errors.{wrap}
use rook_servicechannel_agen.Action.{Result, ok, err, ◌>>=◌, >>=-eq-ok}
use rook_servicechannel_agen.Json.{Json}
use rook_servicechannel_agen.Host.{Host}
use rook_servicechannel_agen.Session.Files.{Laws}
use rook_servicechannel_agen.Backend.Contract.{SupportSession, validate_session}
use rook_servicechannel_agen.Runtime.State.{Agent, Manager}
use rook_servicechannel_agen.Runtime.Manager.{snapshot_of, derive_support_state}
use rook_servicechannel_agen.Runtime.Calls.{resolve_pin}
use rook_servicechannel_agen.Runtime.Heartbeat.{IsValid}
use rook_servicechannel_agen.Runtime.Heartbeat.Steps.{live}
use rook_servicechannel_agen.Ipc.Contract.{
  Action, start_support, Request, validate_request, ConnectWifiPayload, StatusPayload, status,
  Response, new_status_payload, new_session_payload,
}
use rook_servicechannel_agen.Ipc.Wire.{encode_status, encode_payload, encode_connect}
use mathlib.Core.Option
use rook_servicechannel_agen.Ipc.Reply.{Reply}
use rook_servicechannel_agen.Ipc.Server.{handle_request, dispatch, handle_start_support}
use rook_servicechannel_agen.Ipc.Server.Support.{handle_start_support-success}
use rook_servicechannel_agen.Ipc.Client.{outcome}
use rook_servicechannel_agen.Ipc.Client.Incoming.{RawResponse}
use rook_servicechannel_agen.Ipc.Client.Payloads.{decode_status, no_status}
use rook_servicechannel_agen.Ipc.Client.RoundTrip.{raw_response, decode_status-encode_status}
use rook_servicechannel_agen.App.{App}
use rook_servicechannel_agen.App.Print.{setting, write_all, print_support_status}
use rook_servicechannel_agen.App.Requests.{
  Connection, request, unmarshal_payload, ask_status, handle_word, handle_interactive_command,
}

-- A value is read only from a response with a success, and from its payload.
module _ {A : Type 0} (decode : Json → Result A) (zero_value : A) (action : Action) where
  pub outcome-success :
      (b : Bool) (r : RawResponse) {p : A}
      → r.success ≡ b
      → outcome decode zero_value action (some r) ≡ ok p
      → r.success ≡ true
  unfolding outcome
  outcome-success true r e h = e
  outcome-success false r e h = ground arith

  outcome-payload :
      (r : RawResponse) {j : Json}
      → r.success ≡ true
      → r.payload ≡ some j
      → outcome decode zero_value action (some r) ≡ decode j
  unfolding outcome
  outcome-payload r e h = rw (e, h) refl

-- A connection whose requests have the given id, and are answered by the server before anything
-- else happens to the service; its world is the service's agent.
module _ {W : Type 0} (host : Host W) (id : String) where
  abbrev payload_text : Option ConnectWifiPayload → String
  payload_text none = ""
  payload_text (some p) = host.print_json (encode_connect p)

  abbrev pub sent_request : Action → Option ConnectWifiPayload → Request
  sent_request action p = record { id = id; action = action; payload = payload_text p }

  abbrev pub served : Connection (Agent W)
  served = record {
    exchange = λ action p g.
        let (reply, g') = handle_request host (sent_request action p) g in
        (ok (some (raw_response reply.response)), g');
    shape_error = host.shape_error;
  }

  handle_request-start :
      (g : Agent W)
      → is_empty (trim_space id) ≡ false
      → handle_request host (sent_request start_support none) g
        ≡ handle_start_support host (sent_request start_support none) g
  unfolding handle_request validate_request dispatch
  handle_request-start g h = rw h refl

  start-asks :
      (a : App (Agent W))
      → handle_interactive_command served "start" a
        ≡ (ask_status served start_support >>= (λ p. write_all (print_support_status p))) a
  unfolding handle_interactive_command handle_word lowers_to fields_func is_space
  start-asks a = refl

  -- What the server's response to a request makes of the question for the status.
  abbrev pub answer_of : Action → Agent W → Reply × Agent W
  answer_of action g = handle_request host (sent_request action none) g

  ask_status-answer :
      (action : Action) (a b : App (Agent W)) {p : StatusPayload}
      → ask_status served action a ≡ (ok p, b)
      → let r = answer_of action a.agent.world in
        (outcome
            (unmarshal_payload served decode_status)
            no_status
            action
            (some (raw_response r.0.response))
          ≡ ok p)
        × (b.agent.world ≡ r.1)
        × (b.output ≡ a.output)
  unfolding ask_status request
  ask_status-answer action a b e =
      (ap (λ r. r.0) e, sym (ap (λ r. r.1.agent.world) e), sym (ap (λ r. r.1.output) e))

  -- The status of a response with a success is what is asked for.
  status-read :
      (r : Response) (action : Action) {p q : StatusPayload}
      → outcome (unmarshal_payload served decode_status) no_status action (some (raw_response r))
        ≡ ok p
      → r.success ≡ true
      → r.payload ≡ some (status q)
      → p ≡ q
  unfolding encode_payload
  status-read r action {p} {q} h won has =
      let raw : (raw_response r).payload ≡ some (encode_status q) =
        ap (λ o. Option.map encode_payload o) has in
      let fill = unmarshal_payload served decode_status in
      let read = outcome-payload fill no_status action (raw_response r) won raw in
      let filled : fill (encode_status q) ≡ ok q =
        ap
          (λ o. elim o as (λ _. Result StatusPayload) [
            | none ↦ err (wrap "decode ipc response payload: " (host.shape_error "payload") "")
            | some x ↦ ok x
          ])
          (decode_status-encode_status q) in
      let same : Result.ok p ≡ ok q = sym h ∙ read ∙ filled in ground arith

  -- What is printed of a status that has a session.
  print-current :
      (m : Manager W) (s : SupportSession)
      → print_support_status (new_status_payload (snapshot_of m (some s)))
        ≡ setting "support_active" "true"
          ∷ setting "support_state" "servicemode"
          ∷ setting "status" s.status
          ∷ setting "pin" s.pin
          ∷ setting "ip_address" s.ip_address
          ∷ []
  unfolding print_support_status new_status_payload new_session_payload snapshot_of
      derive_support_state
  print-current m s = refl

  module _ (laws : Laws host) where
    -- An interactive "start" that reports no error, over a connection to a service in a valid state:
    -- the service then holds a session that is valid, its PIN is the one used where none is given, one
    -- heartbeat loop is live, and what is printed is that the support is active in the service
    -- mode, and the status, the PIN and the address of that session.
    pub handle_interactive_command-start :
        (a b : App (Agent W))
        → is_empty (trim_space id) ≡ false
        → IsValid a.agent.world
        → handle_interactive_command served "start" a ≡ (ok tt, b)
        → (s : SupportSession) × (validate_session s ≡ none)
          × (resolve_pin host "" b.agent.world ≡ (ok s.pin, b.agent.world))
          × (live b.agent.world.loops ≡ 1)
          × (b.output
              ≡ a.output
                ++ setting "support_active" "true"
                  ∷ setting "support_state" "servicemode"
                  ∷ setting "status" s.status
                  ∷ setting "pin" s.pin
                  ∷ setting "ip_address" s.ip_address
                  ∷ [])
    handle_interactive_command-start a b named v e =
        let g = a.agent.world in
        let req = sent_request start_support none in
        let (p, c, asked, wrote) =
          >>=-eq-ok (ask_status served start_support) (λ p. write_all (print_support_status p)) a
            (sym (start-asks a) ∙ e) in
        let (h, left, printed) = ask_status-answer start_support a c asked in
        let r = answer_of start_support g in
        let won =
          outcome-success (unmarshal_payload served decode_status) no_status start_support _
            (raw_response r.0.response) refl h in
        let handled = handle_request-start g named in
        let done = ap (λ x. x.0.response.success) (sym handled) ∙ won in
        let (s, valid, payload, _, pin, one) =
          handle_start_support-success host laws req g v done in
        let after : b.agent.world ≡ (handle_start_support host req g).1 =
          sym (ap (λ x. x.1.agent.world) wrote) ∙ left ∙ ap (λ x. x.1) handled in
        let read =
          status-read r.0.response start_support h won
            (ap (λ x. x.0.response.payload) handled ∙ payload) in
        let shown : b.output ≡ c.output ++ print_support_status p =
          sym (ap (λ x. x.1.output) wrote) in
        (
          s,
          valid,
          rw after pin,
          rw after one,
          shown
              ∙ ap₂ (λ o q. o ++ print_support_status q) printed read
              ∙ ap (λ l. a.output ++ l)
                  (print-current (handle_start_support host req g).1.manager s),
        )
