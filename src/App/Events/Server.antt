-- ===== src/App/Events/Server.antt =====
-- What the interactive mode of internal/app/app.go shows of all the events that the server sends.
use rook_servicechannel_agen.Common.{
  String, Bool, Option, none, some, List, [], ◌∷◌, ◌≡◌, refl, All,
}
use rook_servicechannel_agen.Errors.{Error}
use rook_servicechannel_agen.Action.{Result, ok, err, Action as Call}
use rook_servicechannel_agen.Host.{Host}
use rook_servicechannel_agen.Runtime.State
use rook_servicechannel_agen.Runtime.State.{Agent, Snapshot}
use rook_servicechannel_agen.Ipc.Contract.{Action, Request, Payload, Event, validate_request}
use rook_servicechannel_agen.Ipc.Reply.{Handler, accept, reply, answer_with, or_refuse, then_do}
use rook_servicechannel_agen.Ipc.Server.{
  handle_get_status, handle_ping, handle_scan, handle_connect, handle_disconnect, handle_vpn_status,
  handle_vpn_start, handle_vpn_stop, handle_cleanup, handle_start_support, handle_stop_support,
  handle_get_pin, dispatch, handle_checked, handle_request, resumed_event, handle_runtime_event,
}
use rook_servicechannel_agen.App.Events.{
  IsShown, raised-Shown, support_state_event-IsShown, pin_event-IsShown, scan_event-IsShown,
  wifi_event-IsShown, vpn_event-IsShown, error_event-IsShown,
}

module _ {W : Type 0} (shape_error : String → Error) (req : Request) where
  -- Every event of a handler is shown.
  abbrev Shown : Handler W → Type 0
  Shown h = (a : Agent W) → All (IsShown shape_error) (h a).0.events

  none-Shown : (p : Payload) → Shown (reply (accept req p []))
  none-Shown p a = tt

  one-Shown :
      (p : Payload) (e : Event) → IsShown shape_error e → Shown (reply (accept req p (e ∷ [])))
  one-Shown p e h a = (h, tt)

  two-Shown :
      (p : Payload) (e f : Event)
      → IsShown shape_error e
      → IsShown shape_error f
      → Shown (reply (accept req p (e ∷ f ∷ [])))
  two-Shown p e f h k a = (h, (k, tt))

  answer_with-Shown :
      {A : Type 0} (code : String) (raise : Bool) (k : A → Handler W) (r : Result A) (b : Agent W)
      → ((x : A) → Shown (k x))
      → All (IsShown shape_error) (answer_with req code raise k r b).0.events
  answer_with-Shown code raise k (ok x) b h = h x b
  answer_with-Shown code raise k (err e) b h = raised-Shown shape_error raise e

  or_refuse-Shown :
      {A : Type 0} (code : String) (raise : Bool) (m : Call (Agent W) A) (k : A → Handler W)
      → ((x : A) → Shown (k x))
      → Shown (or_refuse req code raise m k)
  or_refuse-Shown code raise m k h a = answer_with-Shown code raise k (m a).0 (m a).1 h

  then_do-Shown : (m : Call (Agent W) (Unit {0})) (k : Handler W) → Shown k → Shown (then_do m k)
  then_do-Shown m k h a = h (m a).1

ruleset showing = (
  none-Shown, one-Shown, two-Shown, or_refuse-Shown, then_do-Shown, support_state_event-IsShown,
  pin_event-IsShown, scan_event-IsShown, wifi_event-IsShown, vpn_event-IsShown,
)

module _ {W : Type 0} (host : Host W) (shape_error : String → Error) (req : Request) where
  dispatch-Shown : (action : Action) → Shown shape_error req (dispatch host action req)
  unfolding dispatch handle_get_status handle_ping handle_scan handle_connect handle_disconnect
      handle_vpn_status handle_vpn_start handle_vpn_stop handle_cleanup handle_start_support
      handle_stop_support handle_get_pin
  dispatch-Shown Action.get_status = search showing
  dispatch-Shown Action.ping = search showing
  dispatch-Shown Action.scan_wifi = search showing
  dispatch-Shown Action.connect_wifi = search showing
  dispatch-Shown Action.disconnect_wifi = search showing
  dispatch-Shown Action.vpn_status = search showing
  dispatch-Shown Action.vpn_start = search showing
  dispatch-Shown Action.vpn_stop = search showing
  dispatch-Shown Action.cleanup = search showing
  dispatch-Shown Action.start_support = search showing
  dispatch-Shown Action.stop_support = search showing
  dispatch-Shown Action.get_pin = search showing
  dispatch-Shown (Action.unsupported s) = λ a. tt

  handle_checked-Shown : (e : Option Error) → Shown shape_error req (handle_checked host req e)
  handle_checked-Shown (some e) a = tt
  handle_checked-Shown none a = dispatch-Shown req.action a

  resumed-Shown : (r : Result Snapshot) → All (IsShown shape_error) (resumed_event host r)
  resumed-Shown (ok snap) = (support_state_event-IsShown shape_error snap, tt)
  resumed-Shown (err e) = (error_event-IsShown shape_error e, tt)

  -- The events of the server for an event of the runtime.
  abbrev Passed : State.Event → Type 0
  Passed e =
      (a : Agent W)
      → (events : List Event) × ((handle_runtime_event host e a).0 ≡ ok events)
        × All (IsShown shape_error) events

  handle_runtime_event-Passed : (e : State.Event) → Passed e
  unfolding handle_runtime_event
  handle_runtime_event-Passed (State.session_resumed p) a = (_, refl, resumed-Shown _)
  handle_runtime_event-Passed (State.session_ended p) a =
      (_, refl, (support_state_event-IsShown shape_error _, tt))
  handle_runtime_event-Passed (State.wifi_scan_completed networks) a =
      (_, refl, (scan_event-IsShown shape_error _, tt))
  handle_runtime_event-Passed (State.wifi_state_changed s) a =
      (_, refl, (wifi_event-IsShown shape_error s, tt))
  handle_runtime_event-Passed (State.vpn_state_changed s) a =
      (_, refl, (vpn_event-IsShown shape_error s, tt))
  handle_runtime_event-Passed (State.heartbeat_error p e) a =
      (_, refl, (error_event-IsShown shape_error e, tt))
  handle_runtime_event-Passed (State.heartbeat_fatal p e) a = (
    _,
    refl,
    (error_event-IsShown shape_error e, (support_state_event-IsShown shape_error _, tt)),
  )
  handle_runtime_event-Passed (State.heartbeat_started p n) a = (_, refl, tt)
  handle_runtime_event-Passed State.heartbeat_stopped a = (_, refl, tt)

  -- Whatever the host does, every event that the server sends, with the response to a request or for
  -- an event of the runtime, is of a kind that has such a payload, and the interactive mode shows it
  -- without an error, as its payload says.
  pub handle_request-IsShown :
      (a : Agent W)
      → All (IsShown shape_error) (handle_request host req a).0.events
        × ((e : State.Event)
            → (events : List Event) × ((handle_runtime_event host e a).0 ≡ ok events)
              × All (IsShown shape_error) events)
  unfolding handle_request
  handle_request-IsShown a =
      (handle_checked-Shown (validate_request req) a, λ e. handle_runtime_event-Passed e a)
