-- ===== src/Ipc/Wire.antt =====
-- The JSON of the messages of internal/ipc/contract.go, as the tags of the structs say it.
use rook_servicechannel_agen.Common.{String, Option, none, some, List, [], ◌∷◌, if◌then◌else◌}
use rook_servicechannel_agen.Text.{is_empty}
use rook_servicechannel_agen.Json.{Json, bool, str, arr, obj, Items, nil, cons, Fields, end, field}
use rook_servicechannel_agen.Ipc.Contract.{
  action_name, ConnectWifiPayload, ErrorPayload, SessionPayload, StatusPayload, VpnStatusPayload,
  Payload, empty, status, pin, wifi_scan, connection_state, vpn, error, EventName,
  support_state_changed, wifi_scan_completed, wifi_connection_state_changed, vpn_state_changed,
  pin_assigned, error_raised, Event, Response,
}

-- A string that is left out where it is empty.
abbrev optional_field : String → String → Fields → Fields
optional_field key t rest = if is_empty t then rest else field key (str t) rest

-- `WiFiNetworkPayload`
unfoldable pub encode_networks : List String → Items
encode_networks [] = nil
encode_networks (ssid ∷ r) = cons (obj (field "ssid" (str ssid) end)) (encode_networks r)

abbrev pub networks_field : List String → Fields → Fields
networks_field [] rest = rest
networks_field (n ∷ ns) rest = field "networks" (arr (encode_networks (n ∷ ns))) rest

unfoldable pub encode_session : SessionPayload → Json
encode_session s = obj (
    field "status" (str s.status)
      (field "pin" (str s.pin) (field "ipAddress" (str s.ip_address) end)))

abbrev pub session_field : Option SessionPayload → Fields
session_field none = end
session_field (some s) = field "session" (encode_session s) end

unfoldable pub encode_status : StatusPayload → Json
encode_status p = obj (
    field "supportActive" (bool p.support_active) (
      field "supportState" (str p.support_state) (
        field "wifiState" (str p.wifi_state) (
          field "vpnState" (str p.vpn_state) (
            field "anyWifiActive" (bool p.any_wifi_active) (
              field "supportWifiActive" (bool p.support_wifi_active) (
                optional_field "activeWifiConnection" p.active_wifi_connection
                  (networks_field p.networks (session_field p.session)))))))))

unfoldable pub encode_vpn : VpnStatusPayload → Json
encode_vpn p = obj (
    field "state" (str p.state) (
      field "serviceActive" (bool p.service_active) (
        field "interfacePresent" (bool p.interface_present) (
          optional_field "ipAddress" p.ip_address
            (field "statusFilePresent" (bool p.status_file_present) end)))))

unfoldable pub encode_error : ErrorPayload → Json
encode_error e = obj (field "code" (str e.code) (field "message" (str e.message) end))

unfoldable pub encode_connect : ConnectWifiPayload → Json
encode_connect p = obj (field "ssid" (str p.ssid) (field "password" (str p.password) end))

-- The value in the `Payload` of a response or an event.
unfoldable pub encode_payload : Payload → Json
unfolding encode_networks encode_status encode_vpn encode_error
encode_payload empty = obj end
encode_payload (status p) = encode_status p
encode_payload (pin p) = obj (field "pin" (str p) end)
encode_payload (wifi_scan ns) = obj (field "networks" (arr (encode_networks ns)) end)
encode_payload (connection_state s) = obj (field "state" (str s) end)
encode_payload (vpn p) = encode_vpn p
encode_payload (error e) = encode_error e

abbrev payload_field : Option Payload → Fields → Fields
payload_field none rest = rest
payload_field (some p) rest = field "payload" (encode_payload p) rest

abbrev error_field : Option ErrorPayload → Fields
error_field none = end
error_field (some e) = field "error" (encode_error e) end

unfoldable pub encode_response : Response → Json
unfolding action_name
encode_response r = obj (
    field "type" (str "response") (
      field "id" (str r.id) (
        field "action" (str (action_name r.action))
          (field "success" (bool r.success) (payload_field r.payload (error_field r.error))))))

unfoldable pub event_name : EventName → String
event_name support_state_changed = "SupportStateChanged"
event_name wifi_scan_completed = "WifiScanCompleted"
event_name wifi_connection_state_changed = "WifiConnectionStateChanged"
event_name vpn_state_changed = "VpnStateChanged"
event_name pin_assigned = "PinAssigned"
event_name error_raised = "ErrorRaised"

unfoldable pub encode_event : Event → Json
unfolding event_name
encode_event e = obj (
    field "type" (str "event")
      (field "event" (str (event_name e.event)) (field "payload" (encode_payload e.payload) end)))
