-- ===== src/App/Print.antt =====
-- What internal/app/app.go prints: sessions, statuses and the events of the local interface.
use Prim.Native.String.{◌++◌ as concat}
use rook_servicechannel_agen.Common.{
  String, Bool, true, false, Option, none, some, List, [], ◌∷◌, ◌++◌, length, str_eq, if◌then◌else◌,
}
use rook_servicechannel_agen.Text.{is_empty, trim_space}
use rook_servicechannel_agen.Errors.{Error, decimal, message}
use rook_servicechannel_agen.Action.{Result, ok, err, Action}
use rook_servicechannel_agen.Json.{Json}
use rook_servicechannel_agen.Backend.Contract.{SupportSession}
use rook_servicechannel_agen.Network.Nmcli.{WifiStatus}
use rook_servicechannel_agen.Network.Vpn.{VpnStatus}
use rook_servicechannel_agen.Ipc.Contract.{
  SessionPayload, StatusPayload, VpnStatusPayload, state_text,
}
use rook_servicechannel_agen.Ipc.Client.Incoming.{RawEvent}
use rook_servicechannel_agen.Ipc.Client.Payloads.{
  decode_status, decode_pin, decode_scan, decode_state, decode_error,
}
use rook_servicechannel_agen.App.{App}

-- `fmt.Fprintf(w, "name=%s\n", value)`
abbrev pub setting : String → String → String
setting name value = concat name (concat "=" (concat value "\n"))

-- `strconv.FormatBool`
abbrev pub bool_text : Bool → String
bool_text true = "true"
bool_text false = "false"

-- `emptyAsUnset`
unfoldable pub empty_as_unset : String → String
empty_as_unset value = if is_empty value then "<unset>" else value

abbrev session_lines : String → String → String → List String
session_lines status pin ip_address =
    setting "status" status ∷ setting "pin" pin ∷ setting "ip_address" ip_address ∷ []

-- `printSession`
unfoldable pub print_session : SupportSession → List String
print_session s = session_lines s.status s.pin s.ip_address

abbrev print_payload : Option SessionPayload → List String
print_payload none = []
print_payload (some s) = session_lines s.status s.pin s.ip_address

-- `printSupportStatus`
unfoldable pub print_support_status : StatusPayload → List String
print_support_status p =
    setting "support_active" (bool_text p.support_active)
    ∷ setting "support_state" p.support_state
    ∷ print_payload p.session

abbrev wifi_lines : Bool → Bool → String → List String
wifi_lines any support active =
    setting "wifi_active" (bool_text any)
    ∷ setting "support_wifi_active" (bool_text support)
    ∷ setting "active_connection" (empty_as_unset active)
    ∷ []

-- `printWiFiStatusPayload`
unfoldable pub print_wifi_status_payload : StatusPayload → List String
unfolding empty_as_unset
print_wifi_status_payload p =
    wifi_lines p.any_wifi_active p.support_wifi_active p.active_wifi_connection

-- The lines of `printWiFiStatus`.
unfoldable pub print_wifi_lines : WifiStatus → List String
unfolding empty_as_unset
print_wifi_lines st = wifi_lines st.any_active st.support_active st.active_connection_name

-- `printVPNStatusPayload`
unfoldable pub print_vpn_status_payload : VpnStatusPayload → List String
print_vpn_status_payload p =
    setting "state" p.state
    ∷ setting "service_active" (bool_text p.service_active)
    ∷ setting "interface_present" (bool_text p.interface_present)
    ∷ setting "ip_address" p.ip_address
    ∷ setting "status_file_present" (bool_text p.status_file_present)
    ∷ []

-- The lines of `printVPNStatus`.
unfoldable pub print_vpn_lines : VpnStatus → List String
print_vpn_lines st =
    setting "state" (state_text st.state)
    ∷ setting "service_active" (bool_text st.service_active)
    ∷ setting "interface_present" (bool_text st.interface_present)
    ∷ setting "ip_address" st.ip_address
    ∷ setting "status_file_present" (bool_text st.status_file_present)
    ∷ []

abbrev pub ssid_lines : List String → List String
ssid_lines [] = []
ssid_lines (s ∷ r) = concat s "\n" ∷ ssid_lines r

module _ {W : Type 0} where
  abbrev pub write_all : List String → Action (App W) (Unit {0})
  write_all texts a = (ok tt, record a { output = a.output ++ texts })

abbrev pub status_line : StatusPayload → String
status_line p = elim p.session [
  | some s ↦ concat "event: support_state=" (concat p.support_state (concat " pin=" s.pin))
  | none ↦ concat "event: support_state=" p.support_state
]

-- The line of an event's payload, or the error of encoding/json: an event without a payload is one
-- (`json.Unmarshal` of no bytes).
module _ (shape_error : String → Error) where
  abbrev pub read_payload :
      {A : Type 0} → (Json → Option A) → (A → String) → Option Json → Result String
  read_payload decode line none = err (shape_error "event payload")
  read_payload decode line (some j) = elim (decode j) [
    | none ↦ err (shape_error "event payload")
    | some p ↦ ok (line p)
  ]

  -- `formatInteractiveEvent`
  unfoldable pub format_interactive_event : RawEvent → Result String
  unfolding decode_status decode_pin decode_scan decode_state decode_error decimal
  format_interactive_event e =
      if str_eq e.event "SupportStateChanged"
      then read_payload decode_status status_line e.payload
      else if str_eq e.event "PinAssigned"
      then read_payload decode_pin (λ p. concat "event: pin_assigned=" p) e.payload
      else if str_eq e.event "WifiScanCompleted"
      then read_payload decode_scan
          (λ ns. concat "event: wifi_scan_completed count=" (decimal (length ns))) e.payload
      else if str_eq e.event "WifiConnectionStateChanged"
      then read_payload decode_state (λ s. concat "event: wifi_state=" s) e.payload
      else if str_eq e.event "VpnStateChanged"
      then read_payload decode_state (λ s. concat "event: vpn_state=" s) e.payload
      else if str_eq e.event "ErrorRaised"
      then read_payload decode_error (λ p. concat "event: error=" p.message) e.payload
      else ok (concat "event: " e.event)

  abbrev event_line : Result String → List String
  event_line (ok line) = if is_empty (trim_space line) then [] else line ∷ []
  event_line (err e) = concat "event decode error: " (message e) ∷ []

  -- The lines that the goroutine of `runInteractive` makes of the events.
  unfoldable pub event_lines : List RawEvent → List String
  unfolding format_interactive_event message
  event_lines [] = []
  event_lines (e ∷ es) = event_line (format_interactive_event e) ++ event_lines es
