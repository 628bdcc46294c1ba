-- ===== src/Network/Vpn/Laws.antt =====
-- The status of the VPN, and the cleanup.
use rook_servicechannel_agen.Common.{String, true, false, ◌≡◌, refl, ◌↔◌, ◌⊎◌, arith, [], ◌∷◌}
use rook_servicechannel_agen.Text.{is_empty, contains}
use rook_servicechannel_agen.Errors.{Error, message}
use rook_servicechannel_agen.Action.{Result, ok, err, pure, >>=-eq-ok}
use rook_servicechannel_agen.Host.{Host}
use rook_servicechannel_agen.Network.Nmcli.{connected, support_connection_name}
use rook_servicechannel_agen.Network.Wait.{wait_for_condition}
use rook_servicechannel_agen.Network.Wait.Laws.{wait_for_condition_iff, Ready-last}
use rook_servicechannel_agen.Network.Wifi.{disconnect, is_missing_connection}
use rook_servicechannel_agen.Network.Vpn.{
  VpnStatus, vpn_status, vpn_ready, is_ready, start_vpn, stop_vpn, cleanup, is_inactive_service,
  service_name,
}

-- A word is in the text of an error.
abbrev Says : Error → String → Type 0
Says e word = contains (message e) word ≡ true

-- What the cleanup takes for a VPN that is stopped, by the result of `systemctl stop`.
abbrev pub StopTolerated : Result String → Type 0
StopTolerated (ok _) = Unit {0}
StopTolerated (err e) = Says e "inactive" ⊎ (Says e "failed" ⊎ Says e "unknown")

-- What it takes for a connection that is gone, by the result of `nmcli connection delete`.
abbrev pub DeleteTolerated : Result String → Type 0
DeleteTolerated (ok _) = Unit {0}
DeleteTolerated (err e) = Says e "unknown connection" ⊎ Says e "not found"

is_inactive_service_iff : (e : Error) → (is_inactive_service e ≡ true) ↔ StopTolerated (err e)
unfolding is_inactive_service
is_inactive_service_iff e = ground arith

is_missing_connection_iff : (e : Error) → (is_missing_connection e ≡ true) ↔ DeleteTolerated (err e)
unfolding is_missing_connection
is_missing_connection_iff e = ground arith

module _ {W : Type 0} (host : Host W) where
  -- A VPN status counts as connected exactly if its service is active, its interface is present
  -- and the interface has an IPv4 address.
  pub vpn_status-connected :
      (w : W) {st : VpnStatus} {w' : W}
      → vpn_status host w ≡ (ok st, w')
      → (st.state ≡ connected) ↔ (
          (st.service_active ≡ true)
          × (st.interface_present ≡ true)
          × (is_empty st.ip_address ≡ false))
  unfolding vpn_status
  vpn_status-connected w e = ground arith

  vpn_ready-connected :
      (u w' : W)
      → vpn_ready host u ≡ (ok true, w')
      → (st : VpnStatus) × (vpn_status host u ≡ (ok st, w'))
        × (st.state ≡ connected)
        × (is_empty st.ip_address ≡ false)
  unfolding vpn_ready
  vpn_ready-connected u w' e =
      let (st, v, asked, rest) = >>=-eq-ok (vpn_status host) (λ st. pure (is_ready st)) u e in
      (st, ground arith, ground arith, ground arith)

  abbrev started : W → W
  started w = (host.run "systemctl" ("start" ∷ service_name ∷ []) w).1

  start_vpn-waits :
      (w w' : W)
      → start_vpn host w ≡ (ok tt, w')
      → wait_for_condition host (vpn_ready host) (started w) ≡ (ok tt, w')
  unfolding start_vpn
  start_vpn-waits w w' e = ground arith

  -- A start of the VPN that succeeds ended with a status that is connected, with the service
  -- active, the interface present and an IPv4 address.
  pub start_vpn-connected :
      (w w' : W)
      → start_vpn host w ≡ (ok tt, w')
      → (u : W) × (st : VpnStatus) × (vpn_status host u ≡ (ok st, w'))
        × (st.state ≡ connected)
        × (st.service_active ≡ true)
        × (st.interface_present ≡ true)
        × (is_empty st.ip_address ≡ false)
  start_vpn-connected w w' e =
      let (k, b, ready) =
        (wait_for_condition_iff host (vpn_ready host) _ w').0 (start_vpn-waits w w' e) in
      let (u, last) = Ready-last ready in
      let (st, asked, up, ip) = vpn_ready-connected u w' last in
      let (service, interface, _) = (vpn_status-connected u asked).0 up in
      (u, st, asked, up, service, interface, ip)

  cleanup_parts :
      (w w1 w2 : W) (stopped deleted : Result String)
      → host.run "systemctl" ("stop" ∷ service_name ∷ []) w ≡ (stopped, w1)
      → host.run "nmcli" ("connection" ∷ "delete" ∷ support_connection_name ∷ []) w1 ≡ (deleted, w2)
      → ((cleanup host w).1 ≡ w2)
        × (((cleanup host w).0 ≡ ok tt) ↔ (StopTolerated stopped × DeleteTolerated deleted))
  unfolding cleanup stop_vpn disconnect
  cleanup_parts w w1 w2 (ok x) (ok y) s d = ground arith
  cleanup_parts w w1 w2 (ok x) (err f) s d = ground (arith, is_missing_connection_iff f)
  cleanup_parts w w1 w2 (err e) (ok y) s d = ground (arith, is_inactive_service_iff e)
  cleanup_parts w w1 w2 (err e) (err f) s d =
      ground (arith, is_inactive_service_iff e, is_missing_connection_iff f)

  -- A cleanup runs `systemctl stop` for the service of the VPN and then, whatever that returns,
  -- `nmcli connection delete` for the support connection, and no more. It succeeds exactly if the
  -- first one succeeds, or the text of its error contains "inactive", "failed" or "unknown", and the
  -- second one succeeds, or the text of its error contains "unknown connection" or "not found".
  pub cleanup_lem :
      (w : W)
      → let (stopped, w1) = host.run "systemctl" ("stop" ∷ "rook-openvpn-client.service" ∷ []) w in
        let (deleted, w2) =
          host.run "nmcli" ("connection" ∷ "delete" ∷ "rook-support-wifi" ∷ []) w1 in
        ((cleanup host w).1 ≡ w2)
        × (((cleanup host w).0 ≡ ok tt) ↔ (StopTolerated stopped × DeleteTolerated deleted))
  cleanup_lem w =
      let p = host.run "systemctl" ("stop" ∷ service_name ∷ []) w in
      let q = host.run "nmcli" ("connection" ∷ "delete" ∷ support_connection_name ∷ []) p.1 in
      cleanup_parts w p.1 q.1 p.0 q.0 refl refl
