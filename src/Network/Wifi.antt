-- ===== src/Network/Wifi.antt =====
-- `WiFiManager` of internal/network/network.go.
pub mod Laws
use rook_servicechannel_agen.Common.{
  String, Bool, true, false, ◌||◌, not, List, [], ◌∷◌, map, if◌then◌else◌,
}
use rook_servicechannel_agen.Text.{is_empty, trim_space, contains}
use rook_servicechannel_agen.Errors.{Error, text, wrap, message}
use rook_servicechannel_agen.Action.{
  Result, ok, err, Action, pure, of_result, try, ◌>>=◌, ◌>>◌, fail_if, wrap_error,
}
use rook_servicechannel_agen.Host.{Host}
use rook_servicechannel_agen.Network.Ipv4.{extract_ipv4}
use rook_servicechannel_agen.Network.Wait.{wait_for_condition}
use rook_servicechannel_agen.Network.Nmcli.{
  WifiNetwork, WifiStatus, support_connection_name, parse_status, parse_scan,
}

-- `isMissingConnection`
unfoldable pub is_missing_connection : Error → Bool
unfolding contains message
is_missing_connection e =
    contains (message e) "unknown connection" || contains (message e) "not found"

module _ {W : Type 0} (host : Host W) where
  -- `WiFiManager.Scan`
  unfoldable pub scan : Action W (List WifiNetwork)
  scan = do
    output ←
        host.run "nmcli"
          ("--terse" ∷ "--fields" ∷ "SSID" ∷ "dev" ∷ "wifi" ∷ "list" ∷ "--rescan" ∷ "yes" ∷ [])
    pure (map (λ s. record { ssid = s }) (parse_scan output))

  abbrev deleted : Result String → Result (Unit {0})
  deleted (ok _) = ok tt
  deleted (err e) = if is_missing_connection e then ok tt else err e

  -- `WiFiManager.Disconnect`
  unfoldable pub disconnect : Action W (Unit {0})
  disconnect = do
    r ← try (host.run "nmcli" ("connection" ∷ "delete" ∷ support_connection_name ∷ []))
    of_result (deleted r)

  -- `WiFiManager.Status`
  unfoldable pub wifi_status : Action W WifiStatus
  wifi_status = do
    output ←
        host.run "nmcli"
          ("--terse" ∷ "--fields" ∷ "NAME,TYPE" ∷ "connection" ∷ "show" ∷ "--active" ∷ [])
    pure (parse_status output)

  -- `supportIPAddress`
  unfoldable pub support_ip_address : Action W String
  support_ip_address = do
    output ← host.run "nmcli" (
        "--terse" ∷ "--fields" ∷ "IP4.ADDRESS" ∷ "connection" ∷ "show" ∷ "--active"
        ∷ support_connection_name ∷ [])
    pure (extract_ipv4 output)

  abbrev has_address : Result String → Result Bool
  has_address (ok ip) = ok (not (is_empty ip))
  has_address (err e) = if is_missing_connection e then ok false else err e

  unfoldable pub address_if : Bool → Action W Bool
  address_if false = pure false
  address_if true = do r ← try support_ip_address; of_result (has_address r)

  -- The condition that `Connect` waits for.
  unfoldable pub support_ready : Action W Bool
  support_ready = do status ← wifi_status; address_if status.support_active

  -- The command of `Connect`.
  abbrev pub join_network : String → String → Action W String
  join_network ssid password = host.run "nmcli" (
      "dev" ∷ "wifi" ∷ "connect" ∷ ssid ∷ "password" ∷ password ∷ "name" ∷ support_connection_name
      ∷ [])

  -- `WiFiManager.Connect`
  unfoldable pub connect : String → String → Action W (Unit {0})
  connect ssid password = do
    fail_if (is_empty (trim_space ssid)) (text "ssid must not be empty")
    fail_if (is_empty (trim_space password)) (text "password must not be empty")
    disconnect
    join_network ssid password
    wrap_error (λ e. wrap "wait for wifi IPv4 address: " e "")
        (wait_for_condition host support_ready)
