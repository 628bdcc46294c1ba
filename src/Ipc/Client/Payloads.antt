-- ===== src/Ipc/Client/Payloads.antt =====
-- `json.Unmarshal` of the payloads of internal/ipc/contract.go, as the users of the client call it.
use rook_servicechannel_agen.Common.{
  String, false, Option, none, some, List, [], ◌∷◌, if◌then◌else◌,
}
use rook_servicechannel_agen.Json.{
  Json, null, arr, Items, nil, cons, names_field, decode_string, decode_struct,
}
use rook_servicechannel_agen.Ipc.Contract.{
  ErrorPayload, SessionPayload, StatusPayload, VpnStatusPayload,
}
use rook_servicechannel_agen.Ipc.Client.Incoming.{decode_bool, put}

abbrev set_ssid : String → Json → String → Option String
set_ssid key v t = if names_field key "ssid" then decode_string v t else some t

-- The elements of a slice, each one filled from the zero value.
unfoldable pub decode_networks : Items → Option (List String)
unfolding decode_struct decode_string names_field
decode_networks nil = some []
decode_networks (cons j r) =
    let rest = decode_networks r in
    elim (decode_struct set_ssid j "") [ none ↦ none | some t ↦ put rest (λ ts. t ∷ ts) ]

abbrev decode_slice : Json → Option (List String)
decode_slice null = some []
decode_slice (arr items) = decode_networks items
decode_slice _ = none

abbrev set_session : String → Json → SessionPayload → Option SessionPayload
set_session key v s =
    if names_field key "status"
    then put (decode_string v s.status) (λ t. record s { status = t })
    else if names_field key "pin"
    then put (decode_string v s.pin) (λ t. record s { pin = t })
    else if names_field key "ipAddress"
    then put (decode_string v s.ip_address) (λ t. record s { ip_address = t })
    else some s

abbrev old_session : Option SessionPayload → SessionPayload
old_session none = record { status = ""; pin = ""; ip_address = "" }
old_session (some s) = s

-- A `*SessionPayload`: null is nil.
abbrev decode_session : Json → Option SessionPayload → Option (Option SessionPayload)
decode_session null old = some none
decode_session j old = put (decode_struct set_session j (old_session old)) some

abbrev pub set_status : String → Json → StatusPayload → Option StatusPayload
set_status key v p =
    if names_field key "supportActive"
    then put (decode_bool v p.support_active) (λ b. record p { support_active = b })
    else if names_field key "supportState"
    then put (decode_string v p.support_state) (λ t. record p { support_state = t })
    else if names_field key "wifiState"
    then put (decode_string v p.wifi_state) (λ t. record p { wifi_state = t })
    else if names_field key "vpnState"
    then put (decode_string v p.vpn_state) (λ t. record p { vpn_state = t })
    else if names_field key "anyWifiActive"
    then put (decode_bool v p.any_wifi_active) (λ b. record p { any_wifi_active = b })
    else if names_field key "supportWifiActive"
    then put (decode_bool v p.support_wifi_active) (λ b. record p { support_wifi_active = b })
    else if names_field key "activeWifiConnection"
    then put (decode_string v p.active_wifi_connection)
        (λ t. record p { active_wifi_connection = t })
    else if names_field key "networks"
    then put (decode_slice v) (λ ns. record p { networks = ns })
    else if names_field key "session"
    then put (decode_session v p.session) (λ s. record p { session = s })
    else some p

unfoldable pub no_status : StatusPayload
no_status = record {
  support_active = false;
  support_state = "";
  wifi_state = "";
  vpn_state = "";
  any_wifi_active = false;
  support_wifi_active = false;
  active_wifi_connection = "";
  networks = [];
  session = none;
}

unfoldable pub decode_status : Json → Option StatusPayload
unfolding decode_networks decode_struct decode_string decode_bool names_field no_status
decode_status j = decode_struct set_status j no_status

abbrev set_pin : String → Json → String → Option String
set_pin key v t = if names_field key "pin" then decode_string v t else some t

unfoldable pub decode_pin : Json → Option String
unfolding decode_struct decode_string names_field
decode_pin j = decode_struct set_pin j ""

abbrev set_scan : String → Json → List String → Option (List String)
set_scan key v ns = if names_field key "networks" then decode_slice v else some ns

unfoldable pub decode_scan : Json → Option (List String)
unfolding decode_networks decode_struct names_field
decode_scan j = decode_struct set_scan j []

abbrev set_state : String → Json → String → Option String
set_state key v t = if names_field key "state" then decode_string v t else some t

unfoldable pub decode_state : Json → Option String
unfolding decode_struct decode_string names_field
decode_state j = decode_struct set_state j ""

abbrev set_vpn : String → Json → VpnStatusPayload → Option VpnStatusPayload
set_vpn key v p =
    if names_field key "state"
    then put (decode_string v p.state) (λ t. record p { state = t })
    else if names_field key "serviceActive"
    then put (decode_bool v p.service_active) (λ b. record p { service_active = b })
    else if names_field key "interfacePresent"
    then put (decode_bool v p.interface_present) (λ b. record p { interface_present = b })
    else if names_field key "ipAddress"
    then put (decode_string v p.ip_address) (λ t. record p { ip_address = t })
    else if names_field key "statusFilePresent"
    then put (decode_bool v p.status_file_present) (λ b. record p { status_file_present = b })
    else some p

unfoldable pub no_vpn_status : VpnStatusPayload
no_vpn_status = record {
  state = "";
  service_active = false;
  interface_present = false;
  ip_address = "";
  status_file_present = false;
}

unfoldable pub decode_vpn : Json → Option VpnStatusPayload
unfolding decode_struct decode_string decode_bool names_field no_vpn_status
decode_vpn j = decode_struct set_vpn j no_vpn_status

abbrev set_error : String → Json → ErrorPayload → Option ErrorPayload
set_error key v p =
    if names_field key "code"
    then put (decode_string v p.code) (λ t. record p { code = t })
    else if names_field key "message"
    then put (decode_string v p.message) (λ t. record p { message = t })
    else some p

unfoldable pub decode_error : Json → Option ErrorPayload
unfolding decode_struct decode_string names_field
decode_error j = decode_struct set_error j (record { code = ""; message = "" })
