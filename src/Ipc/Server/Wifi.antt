-- ===== src/Ipc/Server/Wifi.antt =====
-- Requests to connect to a WiFi network, in internal/ipc/server.go.
use rook_servicechannel_agen.Common.{String, true, false, [], ◌∷◌, ◌≡◌, refl, ap, sym, ◌∙◌}
use rook_servicechannel_agen.Action.{ok, of_result}
use rook_servicechannel_agen.Host.{Host}
use rook_servicechannel_agen.Backend.Client.{unmarshal}
use rook_servicechannel_agen.Network.Nmcli.{WifiStatus}
use rook_servicechannel_agen.Network.Wifi.{connect, wifi_status}
use rook_servicechannel_agen.Runtime.State.{Agent, on_world}
use rook_servicechannel_agen.Runtime.Manager.{sync_wifi_state, sync_wifi_status}
use rook_servicechannel_agen.Ipc.Contract.{
  Request, ConnectWifiPayload, decode_connect, connection_state, state_text,
}
use rook_servicechannel_agen.Ipc.Reply.{
  Reply, Handler, or_refuse, accept, reply, then_do, wifi_event,
}
use rook_servicechannel_agen.Ipc.Server.{handle_connect, sync_wifi}
use rook_servicechannel_agen.Ipc.Server.Support.{or_refuse-success, or_refuse-ok}
use rook_servicechannel_agen.Runtime.Sessions.{on_world_inv}

module _ {W : Type 0} (host : Host W) where
  -- What the agent holds after a connection, by the worlds before and after the last look at it.
  pub record Joined (ssid password : String) (status : WifiStatus) (a b : Agent W) : Type 0 where
    pub middle : W
    pub connected : connect host ssid password a.world ≡ (ok tt, middle)
    pub asked : wifi_status host middle ≡ (ok status, b.world)
    pub state : b.manager.wifi_state ≡ status.state
    pub active : b.manager.active_wifi_connection ≡ status.active_connection_name
    pub loops : b.loops ≡ a.loops

  abbrev connected_reply : Request → WifiStatus → Reply
  connected_reply req st =
      accept req (connection_state (state_text st.state)) (wifi_event st.state ∷ [])

  abbrev report : Request → WifiStatus → Handler W
  report req st = then_do (sync_wifi st) (reply (connected_reply req st))

  abbrev look : Request → Handler W
  look req = or_refuse req "connect_wifi_failed" true (on_world (wifi_status host)) (report req)

  abbrev join_then_look : Request → ConnectWifiPayload → Handler W
  join_then_look req p =
      or_refuse req "connect_wifi_failed" true (on_world (connect host p.ssid p.password))
        λ _. look req

  report-Joined :
      (p : ConnectWifiPayload) (a u v : Agent W) (st : WifiStatus)
      → on_world (connect host p.ssid p.password) a ≡ (ok tt, u)
      → on_world (wifi_status host) u ≡ (ok st, v)
      → Joined p.ssid p.password st a (sync_wifi st v).1
  unfolding sync_wifi sync_wifi_state sync_wifi_status
  report-Joined p a u v st e f =
      let (joined, _, loops) = on_world_inv host (connect host p.ssid p.password) a u e in
      let (looked, _, loops') = on_world_inv host (wifi_status host) u v f in
      record {
        middle = u.world;
        connected = joined;
        asked = looked;
        state = refl;
        active = refl;
        loops = loops' ∙ loops;
      }

  -- A request to connect to a WiFi network that reports a success, and whose payload is decoded,
  -- left the agent joined to that network, and the response and its event show the state that was
  -- read after it.
  pub handle_connect-success :
      (req : Request) (p : ConnectWifiPayload) (a : Agent W)
      → unmarshal host decode_connect req.payload ≡ ok p
      → let r = handle_connect host req a in
        r.0.response.success ≡ true
        → (st : WifiStatus) × Joined p.ssid p.password st a r.1 × (r.0 ≡ connected_reply req st)
  unfolding handle_connect
  handle_connect-success req p a read h =
      let first : handle_connect host req a ≡ join_then_look req p a =
        or_refuse-ok req "invalid_payload" false
          (of_result (unmarshal host decode_connect req.payload)) (join_then_look req) a
          (ap (λ r. (r, a)) read) in
      let won = ap (λ r. r.0.response.success) (sym first) ∙ h in
      let (_, u, joined, second) =
        or_refuse-success req "connect_wifi_failed" true (on_world (connect host p.ssid p.password))
          (λ _. look req) a won in
      let won' = ap (λ r. r.0.response.success) (sym second) ∙ won in
      let (st, v, looked, third) =
        or_refuse-success req "connect_wifi_failed" true (on_world (wifi_status host)) (report req)
          u won' in
      let whole = first ∙ second ∙ third in
      let last : (handle_connect host req a).1 ≡ (sync_wifi st v).1 = ap (λ r. r.1) whole in
      (st, rw last (report-Joined p a u v st joined looked), ap (λ r. r.0) whole)
