-- ===== src/Ipc/Server/Replies.antt =====
-- Every reply of the server answers its request: it names it, and it holds either a payload or an
-- error.
use rook_servicechannel_agen.Common.{
  String, Bool, true, false, Option, none, some, List, ◌≡◌, refl, is_some, if◌then◌else◌,
}
use rook_servicechannel_agen.Errors.{Error}
use rook_servicechannel_agen.Action.{Result, ok, err, Action as Call}
use rook_servicechannel_agen.Host.{Host}
use rook_servicechannel_agen.Runtime.State.{Agent}
use rook_servicechannel_agen.Ipc.Contract.{
  Action, Request, Payload, Event, Response, validate_request,
}
use rook_servicechannel_agen.Ipc.Server.{
  handle_get_status, handle_ping, handle_scan, handle_connect, handle_disconnect, handle_vpn_status,
  handle_vpn_start, handle_vpn_stop, handle_cleanup, handle_start_support, handle_stop_support,
  handle_get_pin, dispatch, handle_checked, handle_request,
}
use rook_servicechannel_agen.Ipc.Reply.{
  Handler, success_response, error_response, accept, reply, answer_with, or_refuse, then_do,
}

-- A response to a request: its id and action, and a payload for a success or an error.
pub record Answers (req : Request) (r : Response) : Type 0 where
  pub same_id : r.id ≡ req.id
  pub same_action : r.action ≡ req.action
  pub payload_iff : is_some r.payload ≡ r.success
  pub error_iff : is_some r.error ≡ (if r.success then false else true)

abbrev pub Answered : {W : Type 0} → Request → Handler W → Type 0
Answered {W} req h = (a : Agent W) → Answers req (h a).0.response

error_response-Answers :
    (req : Request) (code msg : String) → Answers req (error_response req code msg)
unfolding error_response
error_response-Answers req code msg = record {
  same_id = refl;
  same_action = refl;
  payload_iff = refl;
  error_iff = refl;
}

success_response-Answers : (req : Request) (p : Payload) → Answers req (success_response req p)
unfolding success_response
success_response-Answers req p = record {
  same_id = refl;
  same_action = refl;
  payload_iff = refl;
  error_iff = refl;
}

module _ {W : Type 0} (req : Request) where
  accept-Answered :
      (p : Payload) (events : List Event) → Answered {W = W} req (reply (accept req p events))
  accept-Answered p events a = success_response-Answers req p

  answer_with-Answers :
      {A : Type 0} (code : String) (raise : Bool) (k : A → Handler W) (r : Result A) (b : Agent W)
      → ((x : A) → Answered req (k x))
      → Answers req (answer_with req code raise k r b).0.response
  answer_with-Answers code raise k (ok x) b h = h x b
  answer_with-Answers code raise k (err e) b h = error_response-Answers req code _

  or_refuse-Answered :
      {A : Type 0} (code : String) (raise : Bool) (m : Call (Agent W) A) (k : A → Handler W)
      → ((x : A) → Answered req (k x))
      → Answered req (or_refuse req code raise m k)
  or_refuse-Answered code raise m k h a = answer_with-Answers code raise k (m a).0 (m a).1 h

  then_do-Answered :
      (m : Call (Agent W) (Unit {0})) (k : Handler W) → Answered req k → Answered req (then_do m k)
  then_do-Answered m k h a = h (m a).1

ruleset answering = (accept-Answered, or_refuse-Answered, then_do-Answered)

module _ {W : Type 0} (host : Host W) (req : Request) where
  get_status-Answered : Answered req (handle_get_status host req)
  unfolding handle_get_status
  get_status-Answered = search answering

  ping-Answered : Answered req (handle_ping host req)
  unfolding handle_ping
  ping-Answered = search answering

  scan-Answered : Answered req (handle_scan host req)
  unfolding handle_scan
  scan-Answered = search answering

  connect-Answered : Answered req (handle_connect host req)
  unfolding handle_connect
  connect-Answered = search answering

  disconnect-Answered : Answered req (handle_disconnect host req)
  unfolding handle_disconnect
  disconnect-Answered = search answering

  vpn_status-Answered : Answered req (handle_vpn_status host req)
  unfolding handle_vpn_status
  vpn_status-Answered = search answering

  vpn_start-Answered : Answered req (handle_vpn_start host req)
  unfolding handle_vpn_start
  vpn_start-Answered = search answering

  vpn_stop-Answered : Answered req (handle_vpn_stop host req)
  unfolding handle_vpn_stop
  vpn_stop-Answered = search answering

  cleanup-Answered : Answered req (handle_cleanup host req)
  unfolding handle_cleanup
  cleanup-Answered = search answering

  start_support-Answered : Answered req (handle_start_support host req)
  unfolding handle_start_support
  start_support-Answered = search answering

  stop_support-Answered : Answered req (handle_stop_support host req)
  unfolding handle_stop_support
  stop_support-Answered = search answering

  get_pin-Answered : Answered req (handle_get_pin host req)
  unfolding handle_get_pin
  get_pin-Answered = search answering

  dispatch-Answered : (action : Action) → Answered req (dispatch host action req)
  unfolding dispatch
  dispatch-Answered Action.get_status = get_status-Answered
  dispatch-Answered Action.ping = ping-Answered
  dispatch-Answered Action.scan_wifi = scan-Answered
  dispatch-Answered Action.connect_wifi = connect-Answered
  dispatch-Answered Action.disconnect_wifi = disconnect-Answered
  dispatch-Answered Action.vpn_status = vpn_status-Answered
  dispatch-Answered Action.vpn_start = vpn_start-Answered
  dispatch-Answered Action.vpn_stop = vpn_stop-Answered
  dispatch-Answered Action.cleanup = cleanup-Answered
  dispatch-Answered Action.start_support = start_support-Answered
  dispatch-Answered Action.stop_support = stop_support-Answered
  dispatch-Answered Action.get_pin = get_pin-Answered
  dispatch-Answered (Action.unsupported s) = λ a. error_response-Answers req _ _

  handle_checked-Answered : (e : Option Error) → Answered req (handle_checked host req e)
  handle_checked-Answered (some e) a = error_response-Answers req _ _
  handle_checked-Answered none a = dispatch-Answered req.action a

  -- Whatever the host does, the response to any request carries the request's id and action; it
  -- has a payload exactly if it reports a success, and an error exactly if it does not.
  pub handle_request-Answers : (a : Agent W) → Answers req (handle_request host req a).0.response
  unfolding handle_request
  handle_request-Answers = handle_checked-Answered (validate_request req)
