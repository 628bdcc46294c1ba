-- ===== src/Ipc/Contract.antt =====
-- internal/ipc/contract.go: requests, responses, events and their payloads.
use Prim.Native.String.{◌++◌ as concat}
use rook_servicechannel_agen.Common.{
  String, Bool, true, false, Option, none, some, List, [], ◌∷◌, if◌then◌else◌,
}
use rook_servicechannel_agen.Text.{is_empty, trim_space, quote}
use rook_servicechannel_agen.Errors.{Error, text}
use rook_servicechannel_agen.Json.{Json, names_field, decode_string, decode_struct}
use rook_servicechannel_agen.Backend.Contract.{SupportSession}
use rook_servicechannel_agen.Network.Nmcli.{ConnectionState, connected, disconnected, WifiNetwork}
use rook_servicechannel_agen.Network.Vpn.{VpnStatus}
use rook_servicechannel_agen.Runtime.State.{
  SupportState, unset, idle, online, online_vpn_up, service_mode, Snapshot,
}

-- `Action`; every text that names no action is `unsupported`.
pub data Action : Type 0 where
  get_status ping scan_wifi connect_wifi disconnect_wifi : Action
  vpn_status vpn_start vpn_stop cleanup start_support stop_support get_pin : Action
  unsupported : String → Action

unfoldable pub action_name : Action → String
action_name get_status = "GetStatus"
action_name ping = "Ping"
action_name scan_wifi = "ScanWifi"
action_name connect_wifi = "ConnectWifi"
action_name disconnect_wifi = "DisconnectWifi"
action_name vpn_status = "VpnStatus"
action_name vpn_start = "VpnStart"
action_name vpn_stop = "VpnStop"
action_name cleanup = "Cleanup"
action_name start_support = "StartSupport"
action_name stop_support = "StopSupport"
action_name get_pin = "GetPin"
action_name (unsupported s) = s

abbrev pub is_supported : Action → Bool
is_supported (unsupported _) = false
is_supported _ = true

pub record Request : Type 0 where
  pub id : String
  pub action : Action
  pub payload : String

-- `Request.Validate`
unfoldable pub validate_request : Request → Option Error
unfolding action_name
validate_request r =
    if is_empty (trim_space r.id)
    then some (text "request id must not be empty")
    else if is_supported r.action
    then none
    else some (text (concat "unsupported action " (quote (action_name r.action))))

pub record ErrorPayload : Type 0 where
  pub code : String
  pub message : String

pub record SessionPayload : Type 0 where
  pub status : String
  pub pin : String
  pub ip_address : String

pub record StatusPayload : Type 0 where
  pub support_active : Bool
  pub support_state : String
  pub wifi_state : String
  pub vpn_state : String
  pub any_wifi_active : Bool
  pub support_wifi_active : Bool
  pub active_wifi_connection : String
  pub networks : List String
  pub session : Option SessionPayload

pub record VpnStatusPayload : Type 0 where
  pub state : String
  pub service_active : Bool
  pub interface_present : Bool
  pub ip_address : String
  pub status_file_present : Bool

pub record ConnectWifiPayload : Type 0 where
  pub ssid : String
  pub password : String

-- The values that stand in the `Payload` of a response or an event.
pub data Payload : Type 0 where
  empty : Payload
  status : StatusPayload → Payload
  pin : String → Payload
  wifi_scan : List String → Payload
  connection_state : String → Payload
  vpn : VpnStatusPayload → Payload
  error : ErrorPayload → Payload

pub data EventName : Type 0 where
  support_state_changed wifi_scan_completed wifi_connection_state_changed : EventName
  vpn_state_changed pin_assigned error_raised : EventName

pub record Event : Type 0 where
  pub event : EventName
  pub payload : Payload

pub record Response : Type 0 where
  pub id : String
  pub action : Action
  pub success : Bool
  pub payload : Option Payload
  pub error : Option ErrorPayload

-- `string(state)`
abbrev pub state_text : ConnectionState → String
state_text connected = "connected"
state_text disconnected = "disconnected"

abbrev optional_text : Option ConnectionState → String
optional_text none = ""
optional_text (some s) = state_text s

abbrev pub support_text : SupportState → String
support_text unset = ""
support_text idle = "idle"
support_text online = "online"
support_text online_vpn_up = "online+vpnup"
support_text service_mode = "servicemode"

-- `NewVPNStatusPayload`
unfoldable pub new_vpn_status_payload : VpnStatus → VpnStatusPayload
new_vpn_status_payload s = record {
  state = state_text s.state;
  service_active = s.service_active;
  interface_present = s.interface_present;
  ip_address = s.ip_address;
  status_file_present = s.status_file_present;
}

-- `NewSessionPayload`
unfoldable pub new_session_payload : SupportSession → SessionPayload
new_session_payload s = record { status = s.status; pin = s.pin; ip_address = s.ip_address }

-- The SSIDs of the networks, one payload object each.
abbrev pub ssids : List WifiNetwork → List String
ssids [] = []
ssids (n ∷ r) = n.ssid ∷ ssids r

-- `NewStatusPayload`
unfoldable pub new_status_payload : Snapshot → StatusPayload
unfolding new_session_payload
new_status_payload s = record {
  support_active = s.has_session;
  support_state = support_text s.support_state;
  wifi_state = optional_text s.wifi_state;
  vpn_state = optional_text s.vpn_state;
  any_wifi_active = s.any_wifi_active;
  support_wifi_active = s.support_wifi_active;
  active_wifi_connection = s.active_wifi_connection;
  networks = ssids s.wifi_networks;
  session = if s.has_session then some (new_session_payload s.session) else none;
}

abbrev set_connect : String → Json → ConnectWifiPayload → Option ConnectWifiPayload
set_connect key v p =
    if names_field key "ssid"
    then elim (decode_string v p.ssid) [ none ↦ none | some t ↦ some (record p { ssid = t }) ]
    else if names_field key "password"
    then elim (decode_string v p.password) [
      | none ↦ none
      | some t ↦ some (record p { password = t })
    ]
    else some p

unfoldable pub decode_connect : Json → Option ConnectWifiPayload
unfolding decode_struct names_field decode_string
decode_connect j = decode_struct set_connect j (record { ssid = ""; password = "" })
