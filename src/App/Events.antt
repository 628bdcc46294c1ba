-- ===== src/App/Events.antt =====
-- What the interactive mode of internal/app/app.go shows of one event of the server.
pub mod Server
use Prim.Native.String.{◌++◌ as concat}
use rook_servicechannel_agen.Common.{
  ℕ, String, Bool, true, false, Option, none, some, List, [], ◌∷◌, ◌≡◌, refl, ap, length, All,
}
use rook_servicechannel_agen.Errors.{Error, decimal}
use rook_servicechannel_agen.Action.{Result, ok, err, Action as Call}
use rook_servicechannel_agen.Host.{Host}
use rook_servicechannel_agen.Json.{Json}
use rook_servicechannel_agen.Network.Nmcli.{ConnectionState, WifiNetwork}
use rook_servicechannel_agen.Runtime.State
use rook_servicechannel_agen.Runtime.State.{Agent, Snapshot}
use rook_servicechannel_agen.Ipc.Contract.{
  Action, Request, StatusPayload, Payload, empty, status, pin, wifi_scan, connection_state, vpn,
  error, EventName, support_state_changed, wifi_scan_completed, wifi_connection_state_changed,
  vpn_state_changed, pin_assigned, error_raised, Event, new_status_payload, validate_request,
}
use rook_servicechannel_agen.Ipc.Wire.{encode_status, encode_payload, encode_event, event_name}
use rook_servicechannel_agen.Ipc.Reply.{
  Handler, accept, reply, answer_with, or_refuse, then_do, events_if, error_event, scan_event,
  wifi_event, vpn_event, pin_event, support_state_event,
}
use rook_servicechannel_agen.Ipc.Server.{
  handle_get_status, handle_ping, handle_scan, handle_connect, handle_disconnect, handle_vpn_status,
  handle_vpn_start, handle_vpn_stop, handle_cleanup, handle_start_support, handle_stop_support,
  handle_get_pin, dispatch, handle_checked, handle_request, resumed_event, handle_runtime_event,
}
use rook_servicechannel_agen.Ipc.Client.Incoming.{RawEvent}
use rook_servicechannel_agen.Ipc.Client.Payloads.{decode_status, decode_scan}
use rook_servicechannel_agen.Ipc.Client.RoundTrip.{
  decode_status-encode_status, decode_scan-encode_payload,
}
use rook_servicechannel_agen.App.Print.{read_payload, status_line, format_interactive_event}

-- What the client reads of an event.
abbrev pub raw_event : Event → RawEvent
raw_event e = record { event = event_name e.event; payload = some (encode_payload e.payload) }

-- The line of an event, from its payload.
abbrev pub shown : EventName → Payload → Option String
shown support_state_changed (status p) = some (status_line p)
shown pin_assigned (pin p) = some (concat "event: pin_assigned=" p)
shown wifi_scan_completed (wifi_scan ns) =
    some (concat "event: wifi_scan_completed count=" (decimal (length ns)))
shown wifi_connection_state_changed (connection_state s) = some (concat "event: wifi_state=" s)
shown vpn_state_changed (connection_state s) = some (concat "event: vpn_state=" s)
shown error_raised (error e) = some (concat "event: error=" e.message)
shown _ _ = none

module _ (shape_error : String → Error) where
  -- The event is shown, as its payload says.
  abbrev pub IsShown : Event → Type 0
  IsShown e =
      (line : String) × (shown e.event e.payload ≡ some line)
      × (format_interactive_event shape_error (raw_event e) ≡ ok line)

  read_payload-ok :
      {A : Type 0} (decode : Json → Option A) (line : A → String) (j : Json) {p : A}
      → decode j ≡ some p
      → read_payload shape_error decode line (some j) ≡ ok (line p)
  read_payload-ok decode line j e =
      ap
        (λ o. elim o as (λ _. Result String) [
          | none ↦ err (shape_error "event payload")
          | some q ↦ ok (line q)
        ])
        e

  pub support_state_event-IsShown : (s : Snapshot) → IsShown (support_state_event s)
  unfolding format_interactive_event support_state_event event_name encode_payload
  support_state_event-IsShown s = (
    _,
    refl,
    read_payload-ok decode_status status_line (encode_status (new_status_payload s))
        (decode_status-encode_status (new_status_payload s)),
  )

  pub pin_event-IsShown : (p : String) → IsShown (pin_event p)
  unfolding format_interactive_event encode_payload event_name
  pin_event-IsShown p = (_, refl, refl)

  pub scan_event-IsShown : (ns : List String) → IsShown (scan_event ns)
  unfolding format_interactive_event event_name
  scan_event-IsShown ns = (
    _,
    refl,
    read_payload-ok decode_scan
        (λ ms. concat "event: wifi_scan_completed count=" (decimal (length ms)))
        (encode_payload (wifi_scan ns)) (decode_scan-encode_payload ns),
  )

  pub wifi_event-IsShown : (s : ConnectionState) → IsShown (wifi_event s)
  unfolding format_interactive_event encode_payload event_name
  wifi_event-IsShown s = (_, refl, refl)

  pub vpn_event-IsShown : (s : ConnectionState) → IsShown (vpn_event s)
  unfolding format_interactive_event encode_payload event_name
  vpn_event-IsShown s = (_, refl, refl)

  pub error_event-IsShown : (e : Error) → IsShown (error_event e)
  unfolding format_interactive_event encode_payload error_event event_name
  error_event-IsShown e = (_, refl, refl)

  pub raised-Shown : (raise : Bool) (e : Error) → All IsShown (events_if raise e)
  raised-Shown true e = (error_event-IsShown e, tt)
  raised-Shown false e = tt
