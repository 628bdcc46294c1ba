-- ===== src/Ipc/Server.antt =====
-- internal/ipc/server.go: the handling of one request, and of one event of the runtime.
pub mod Replies
pub mod Support
pub mod Wifi
use rook_servicechannel_agen.Common.{String, Bool, true, false, Option, none, some, List, [], ◌∷◌}
use Prim.Native.String.{◌++◌ as concat}
use rook_servicechannel_agen.Text.{quote}
use rook_servicechannel_agen.Errors.{Error, message}
use rook_servicechannel_agen.Action.{
  Result, ok, err, Action as Call, pure, of_result, try, ◌>>=◌, ◌>>◌,
}
use rook_servicechannel_agen.Host.{Host}
use rook_servicechannel_agen.Backend.Client.{unmarshal}
use rook_servicechannel_agen.Network.Nmcli.{ConnectionState, disconnected, WifiStatus}
use rook_servicechannel_agen.Network.Wifi.{scan, connect, disconnect, wifi_status}
use rook_servicechannel_agen.Network.Vpn
use rook_servicechannel_agen.Network.Vpn.{start_vpn, stop_vpn}
use rook_servicechannel_agen.Runtime.State
use rook_servicechannel_agen.Runtime.State.{Agent, Snapshot, zero_snapshot, on_world}
use rook_servicechannel_agen.Runtime.Manager.{
  sync_wifi_networks, sync_wifi_state, sync_wifi_status, sync_vpn_state, start_heartbeat_loop,
}
use rook_servicechannel_agen.Runtime.Calls.{
  snapshot, send_heartbeat, begin_session, stop_session, resolve_pin,
}
use rook_servicechannel_agen.Ipc.Contract.{
  Action, Request, validate_request, Payload, empty, status, pin, wifi_scan, connection_state, vpn,
  error, Event, support_state_changed, wifi_scan_completed, wifi_connection_state_changed,
  vpn_state_changed, pin_assigned, error_raised, Response, state_text, ssids,
  new_vpn_status_payload, new_status_payload, decode_connect,
}
use rook_servicechannel_agen.Ipc.Reply.{
  Handler, accept, error_event, error_response, or_refuse, pin_event, reply, scan_event,
  support_state_event, then_do, vpn_event, wifi_event,
}

module _ {W : Type 0} where
  -- The two calls that store the status of the WiFi.
  unfoldable pub sync_wifi : WifiStatus → Call (Agent W) (Unit {0})
  unfolding sync_wifi_state sync_wifi_status
  sync_wifi st = do
    sync_wifi_state st.state
    sync_wifi_status st.any_active st.support_active st.active_connection_name

  -- The same after a disconnect.
  unfoldable pub sync_no_wifi : Call (Agent W) (Unit {0})
  unfolding sync_wifi_state sync_wifi_status
  sync_no_wifi = do sync_wifi_state disconnected; sync_wifi_status false false ""

module _ {W : Type 0} (host : Host W) where
  -- The cases of `handleRequest`, one definition each.
  unfoldable pub handle_get_status : Request → Handler W
  handle_get_status req = or_refuse req "status_failed" false (on_world (wifi_status host)) λ wifi.
      then_do (sync_wifi wifi) (
        or_refuse req "status_failed" false (on_world (Vpn.vpn_status host)) λ st.
          then_do (sync_vpn_state st.state) (
            or_refuse req "status_failed" false (snapshot host)
              λ snap. reply (accept req (status (new_status_payload snap)) [])))

  unfoldable pub handle_ping : Request → Handler W
  handle_ping req =
      or_refuse req "ping_failed" true (send_heartbeat host "") λ _. reply (accept req empty [])

  unfoldable pub handle_scan : Request → Handler W
  handle_scan req = or_refuse req "scan_wifi_failed" true (on_world (scan host)) λ networks.
      then_do (sync_wifi_networks networks)
        (reply (accept req (wifi_scan (ssids networks)) (scan_event (ssids networks) ∷ [])))

  unfoldable pub handle_connect : Request → Handler W
  handle_connect req =
      or_refuse req "invalid_payload" false (of_result (unmarshal host decode_connect req.payload))
        λ p.
          or_refuse req "connect_wifi_failed" true (on_world (connect host p.ssid p.password)) λ _.
            or_refuse req "connect_wifi_failed" true (on_world (wifi_status host)) λ st.
              then_do (sync_wifi st) (
                reply
                  (accept req (connection_state (state_text st.state)) (wifi_event st.state ∷ [])))

  unfoldable pub handle_disconnect : Request → Handler W
  handle_disconnect req =
      or_refuse req "disconnect_wifi_failed" true (on_world (disconnect host)) λ _.
        then_do sync_no_wifi (
          reply (
            accept req (connection_state (state_text disconnected)) (wifi_event disconnected ∷ [])))

  unfoldable pub handle_vpn_status : Request → Handler W
  handle_vpn_status req =
      or_refuse req "vpn_status_failed" true (on_world (Vpn.vpn_status host)) λ st.
        then_do (sync_vpn_state st.state) (reply (accept req (vpn (new_vpn_status_payload st)) []))

  unfoldable pub handle_vpn_start : Request → Handler W
  handle_vpn_start req = or_refuse req "vpn_start_failed" true (on_world (start_vpn host)) λ _.
      or_refuse req "vpn_status_failed" true (on_world (Vpn.vpn_status host)) λ st.
        then_do (sync_vpn_state st.state)
          (reply (accept req (vpn (new_vpn_status_payload st)) (vpn_event st.state ∷ [])))

  unfoldable pub handle_vpn_stop : Request → Handler W
  handle_vpn_stop req = or_refuse req "vpn_stop_failed" true (on_world (stop_vpn host)) λ _.
      then_do (sync_vpn_state disconnected) (
        reply
          (accept req (connection_state (state_text disconnected)) (vpn_event disconnected ∷ [])))

  unfoldable pub handle_cleanup : Request → Handler W
  handle_cleanup req = or_refuse req "cleanup_failed" true (on_world (Vpn.cleanup host)) λ _.
      then_do sync_no_wifi (
        then_do (sync_vpn_state disconnected)
          (reply (accept req empty (wifi_event disconnected ∷ vpn_event disconnected ∷ []))))

  unfoldable pub handle_start_support : Request → Handler W
  handle_start_support req =
      or_refuse req "start_support_failed" true (begin_session host) λ session.
        then_do (start_heartbeat_loop session.pin) (
          or_refuse req "status_failed" true (snapshot host) λ snap. reply (
            accept req (status (new_status_payload snap))
              (support_state_event snap ∷ pin_event session.pin ∷ [])))

  unfoldable pub handle_stop_support : Request → Handler W
  handle_stop_support req = or_refuse req "stop_support_failed" true (stop_session host "") λ _.
      or_refuse req "status_failed" true (snapshot host)
        λ snap. reply (accept req (status (new_status_payload snap)) [])

  unfoldable pub handle_get_pin : Request → Handler W
  handle_get_pin req =
      or_refuse req "get_pin_failed" false (resolve_pin host "") λ p. reply (accept req (pin p) [])

  -- The switch on the action.
  unfoldable pub dispatch : Action → Request → Handler W
  dispatch Action.get_status req = handle_get_status req
  dispatch Action.ping req = handle_ping req
  dispatch Action.scan_wifi req = handle_scan req
  dispatch Action.connect_wifi req = handle_connect req
  dispatch Action.disconnect_wifi req = handle_disconnect req
  dispatch Action.vpn_status req = handle_vpn_status req
  dispatch Action.vpn_start req = handle_vpn_start req
  dispatch Action.vpn_stop req = handle_vpn_stop req
  dispatch Action.cleanup req = handle_cleanup req
  dispatch Action.start_support req = handle_start_support req
  dispatch Action.stop_support req = handle_stop_support req
  dispatch Action.get_pin req = handle_get_pin req
  dispatch (Action.unsupported s) req = reply (record {
    response = error_response req "unsupported_action" (concat "unsupported action " (quote s));
    events = [];
  })

  -- `handleRequest` after the request has been validated
  abbrev pub handle_checked : Request → Option Error → Handler W
  handle_checked req (some e) =
      reply (record { response = error_response req "invalid_request" (message e); events = [] })
  handle_checked req none = dispatch req.action req

  -- `handleRequest`
  unfoldable pub handle_request : Request → Handler W
  handle_request req = handle_checked req (validate_request req)

  abbrev pub resumed_event : Result Snapshot → List Event
  resumed_event (ok snap) = support_state_event snap ∷ []
  resumed_event (err e) = error_event e ∷ []

  -- `handleRuntimeEvent`: the events that it broadcasts.
  unfoldable pub handle_runtime_event : State.Event → Call (Agent W) (List Event)
  handle_runtime_event (State.session_resumed p) = do
    snap ← try (snapshot host)
    pure (resumed_event snap)
  handle_runtime_event (State.session_ended p) = pure (support_state_event zero_snapshot ∷ [])
  handle_runtime_event (State.wifi_scan_completed networks) =
      pure (scan_event (ssids networks) ∷ [])
  handle_runtime_event (State.wifi_state_changed s) = pure (wifi_event s ∷ [])
  handle_runtime_event (State.vpn_state_changed s) = pure (vpn_event s ∷ [])
  handle_runtime_event (State.heartbeat_error p e) = pure (error_event e ∷ [])
  handle_runtime_event (State.heartbeat_fatal p e) =
      pure (error_event e ∷ support_state_event zero_snapshot ∷ [])
  handle_runtime_event (State.heartbeat_started p n) = pure []
  handle_runtime_event State.heartbeat_stopped = pure []
