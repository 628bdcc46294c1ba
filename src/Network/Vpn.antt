-- ===== src/Network/Vpn.antt =====
-- `VPNManager` and `Cleaner` of internal/network/network.go.
pub mod Laws
use rook_servicechannel_agen.Common.{
  String, Bool, true, false, ◌&&◌, ◌||◌, not, [], ◌∷◌, str_eq, if◌then◌else◌,
}
use rook_servicechannel_agen.Text.{is_empty, trim_space, contains}
use rook_servicechannel_agen.Errors.{
  Error, wrap, message, is, not_exist, exec_not_found, Errors, nil, cons, append, join_errors,
}
use rook_servicechannel_agen.Action.{
  Result, ok, err, Action, pure, of_result, try, ◌>>=◌, ◌>>◌, check, wrap_error,
}
use rook_servicechannel_agen.Host.{Host}
use rook_servicechannel_agen.Network.Ipv4.{extract_ipv4}
use rook_servicechannel_agen.Network.Wait.{wait_for_condition}
use rook_servicechannel_agen.Network.Nmcli.{ConnectionState, connected, disconnected}
use rook_servicechannel_agen.Network.Wifi.{disconnect}

abbrev pub service_name : String
service_name = "rook-openvpn-client.service"

abbrev pub interface_name : String
interface_name = "rookvpn"

abbrev pub status_file_path : String
status_file_path = "/var/log/rook-openvpn/client-status.log"

pub record VpnStatus : Type 0 where
  pub state : ConnectionState
  pub service_active : Bool
  pub interface_present : Bool
  pub ip_address : String
  pub status_file_present : Bool

-- `isInactiveService`
unfoldable pub is_inactive_service : Error → Bool
unfolding contains message
is_inactive_service e =
    contains (message e) "inactive"
    || contains (message e) "failed"
    || contains (message e) "unknown"

-- `isMissingInterface`
unfoldable pub is_missing_interface : Error → Bool
unfolding contains message
is_missing_interface e =
    contains (message e) "does not exist" || contains (message e) "Cannot find device"

-- `IsCommandUnavailable`
unfoldable pub is_command_unavailable : Error → Bool
unfolding contains message is
is_command_unavailable e = is exec_not_found e || contains (message e) "executable file not found"

abbrev is_connected : ConnectionState → Bool
is_connected connected = true
is_connected disconnected = false

-- The service's part of the status; a failed command has no output.
abbrev service_part : Result String → Result Bool
service_part (ok output) = ok (str_eq (trim_space output) "active")
service_part (err e) = if is_inactive_service e then ok (str_eq (trim_space "") "active") else err e

-- Whether the interface is present, and its address.
abbrev interface_part : Result String → Result (Bool × String)
interface_part (ok output) = ok (true, extract_ipv4 output)
interface_part (err e) = if is_missing_interface e then ok (false, "") else err e

abbrev file_part : Result String → Result Bool
file_part (ok payload) = ok (not (is_empty (trim_space payload)))
file_part (err e) = if is not_exist e then ok false else err (wrap "read vpn status file: " e "")

-- The status from its three parts.
unfoldable pub assemble : Bool → Bool → String → Bool → VpnStatus
assemble service interface ip file = record {
  state = if service && interface && not (is_empty ip) then connected else disconnected;
  service_active = service;
  interface_present = interface;
  ip_address = ip;
  status_file_present = file;
}

abbrev to_error : Result (Unit {0}) → (Error → Bool) → Errors
to_error (ok _) ignored = nil
to_error (err e) ignored = if ignored e then nil else cons e nil

abbrev pub is_ready : VpnStatus → Bool
is_ready st = is_connected st.state && not (is_empty st.ip_address)

module _ {W : Type 0} (host : Host W) where
  -- `VPNManager.Status`
  unfoldable pub vpn_status : Action W VpnStatus
  unfolding assemble
  vpn_status = do
    service_output ← try (host.run "systemctl" ("is-active" ∷ service_name ∷ []))
    service ← of_result (service_part service_output)
    ip_output ← try (host.run "ip" ("-o" ∷ "-4" ∷ "addr" ∷ "show" ∷ "dev" ∷ interface_name ∷ []))
    interface ← of_result (interface_part ip_output)
    payload ← try (host.read_file status_file_path)
    file ← of_result (file_part payload)
    pure (assemble service interface.0 interface.1 file)

  -- The condition that `Start` waits for.
  unfoldable pub vpn_ready : Action W Bool
  vpn_ready = do status ← vpn_status; pure (is_ready status)

  -- `VPNManager.Start`
  unfoldable pub start_vpn : Action W (Unit {0})
  start_vpn = do
    host.run "systemctl" ("start" ∷ service_name ∷ [])
    wrap_error (λ e. wrap "wait for vpn IPv4 address: " e "") (wait_for_condition host vpn_ready)

  -- `VPNManager.Stop`
  unfoldable pub stop_vpn : Action W (Unit {0})
  stop_vpn = do host.run "systemctl" ("stop" ∷ service_name ∷ []); pure tt

  -- `Cleaner.Cleanup`; the agent always gives both managers.
  unfoldable pub cleanup : Action W (Unit {0})
  cleanup = do
    stopped ← try stop_vpn
    removed ← try (disconnect host)
    check (
        join_errors (append (to_error stopped is_inactive_service) (to_error removed (λ _. false))))
