-- ===== src/App/Commands.antt =====
-- internal/app/app.go: the commands that run without the service.
use Prim.Native.String.{◌++◌ as concat}
use rook_servicechannel_agen.Common.{ℕ, String, false}
use rook_servicechannel_agen.Action.{Action, ◌>>=◌, ◌>>◌}
use rook_servicechannel_agen.Host.{Host}
use rook_servicechannel_agen.Network.Nmcli.{disconnected, WifiStatus}
use rook_servicechannel_agen.Network.Wifi.{scan, connect, disconnect, wifi_status}
use rook_servicechannel_agen.Network.Vpn.{start_vpn, stop_vpn, vpn_status, VpnStatus}
use rook_servicechannel_agen.Network.Vpn
use rook_servicechannel_agen.Runtime.State.{Agent}
use rook_servicechannel_agen.Runtime.Manager.{
  update_wifi_networks, set_wifi_state, set_vpn_state, sync_wifi_status,
}
use rook_servicechannel_agen.Runtime.Calls.{
  begin_session, get_session_status, resolve_pin, send_heartbeat, stop_session,
}
use rook_servicechannel_agen.Ipc.Contract.{state_text, ssids}
use rook_servicechannel_agen.App.{App, with_agent, write_line}
use rook_servicechannel_agen.App.Print.{
  write_all, print_session, print_wifi_lines, print_vpn_lines, ssid_lines,
}

module _ {W : Type 0} (duration_text : ℕ → String) (host : Host W) where
  abbrev pub call : {A : Type 0} → Action (Agent W) A → Action (App W) A
  call m = with_agent duration_text m

  -- A call of a network manager, which makes no call of a handler.
  abbrev pub network : {A : Type 0} → Action W A → Action (App W) A
  network m a =
      let (r, w) = m a.agent.world in (r, record a { agent = record a.agent { world = w } })

  -- `startSession`
  unfoldable pub start_session : Action (App W) (Unit {0})
  unfolding print_session
  start_session = do session ← call (begin_session host); write_all (print_session session)

  -- `printSessionStatus`
  unfoldable pub print_session_status : String → Action (App W) (Unit {0})
  unfolding print_session
  print_session_status pin = do
    session ← call (get_session_status host pin)
    write_all (print_session session)

  -- `printSessionPIN`
  unfoldable pub print_session_pin : String → Action (App W) (Unit {0})
  print_session_pin pin_override = do pin ← call (resolve_pin host pin_override); write_line pin

  -- `sendHeartbeat`
  unfoldable pub ping : String → Action (App W) (Unit {0})
  ping pin = do call (send_heartbeat host pin); write_line "heartbeat sent"

  -- `stopSession`
  unfoldable pub stop : String → Action (App W) (Unit {0})
  stop pin = do call (stop_session host pin); write_line "session ended"

  -- `scanWiFi`
  unfoldable pub scan_wifi : Action (App W) (Unit {0})
  scan_wifi = do
    networks ← network (scan host)
    write_all (ssid_lines (ssids networks))
    call (update_wifi_networks networks)

  -- The calls that store the status of the WiFi.
  abbrev pub set_wifi : WifiStatus → Action (App W) (Unit {0})
  set_wifi st = do
    call (set_wifi_state st.state)
    call (sync_wifi_status st.any_active st.support_active st.active_connection_name)

  -- `connectWiFi`
  unfoldable pub connect_wifi : String → String → Action (App W) (Unit {0})
  connect_wifi ssid password = do
    network (connect host ssid password)
    status ← network (wifi_status host)
    set_wifi status
    write_line (concat "wifi connected: " ssid)

  -- `disconnectWiFi`
  unfoldable pub disconnect_wifi : Action (App W) (Unit {0})
  disconnect_wifi = do
    network (disconnect host)
    call (set_wifi_state disconnected)
    call (sync_wifi_status false false "")
    write_line "wifi disconnected"

  -- `printWiFiStatus`
  unfoldable pub print_wifi_status : Action (App W) (Unit {0})
  unfolding print_wifi_lines
  print_wifi_status = do
    status ← network (wifi_status host)
    set_wifi status
    write_all (print_wifi_lines status)

  -- `printVPNStatus`
  unfoldable pub print_vpn_status : Action (App W) (Unit {0})
  unfolding print_vpn_lines
  print_vpn_status = do
    status ← network (vpn_status host)
    call (set_vpn_state status.state)
    write_all (print_vpn_lines status)

  -- `startVPN`
  unfoldable pub vpn_start : Action (App W) (Unit {0})
  vpn_start = do
    network (start_vpn host)
    status ← network (vpn_status host)
    call (set_vpn_state status.state)
    write_line (concat "vpn state=" (state_text status.state))

  -- `stopVPN`
  unfoldable pub vpn_stop : Action (App W) (Unit {0})
  vpn_stop = do network (stop_vpn host); call (set_vpn_state disconnected); write_line "vpn stopped"

  -- `cleanup`
  unfoldable pub cleanup : Action (App W) (Unit {0})
  cleanup = do
    network (Vpn.cleanup host)
    call (set_wifi_state disconnected)
    call (set_vpn_state disconnected)
    write_line "cleanup completed"
