-- ===== src/Network/Wifi/Laws.antt =====
-- Connecting to a WiFi network: what is refused at once, and what success promises.
use rook_servicechannel_agen.Common.{
  String, Bool, true, false, ◌||◌, if◌then◌else◌, ◌≡◌, refl, arith,
}
use rook_servicechannel_agen.Text.{is_empty, trim_space}
use rook_servicechannel_agen.Errors.{text}
use rook_servicechannel_agen.Action.{Result, ok, err, >>=-eq-ok}
use rook_servicechannel_agen.Host.{Host}
use rook_servicechannel_agen.Network.Nmcli.{WifiStatus}
use rook_servicechannel_agen.Network.Wait.{wait_for_condition}
use rook_servicechannel_agen.Network.Wait.Laws.{wait_for_condition_iff, Ready-last}
use rook_servicechannel_agen.Network.Wifi.{
  connect, join_network, disconnect, wifi_status, support_ip_address, address_if, support_ready,
}

module _ {W : Type 0} (host : Host W) where
  -- A connection with a blank SSID or a blank password is refused before any command is run, with
  -- the error for the first of the two that is blank.
  pub connect_blank :
      (ssid password : String) (w : W)
      → (is_empty (trim_space ssid) || is_empty (trim_space password)) ≡ true
      → connect host ssid password w ≡ (
        err (
            if is_empty (trim_space ssid)
            then text "ssid must not be empty"
            else text "password must not be empty"),
        w,
      )
  unfolding connect
  connect_blank ssid password w h = ground arith

  -- The support connection is active and has an IPv4 address, by the last two commands that led
  -- to a world.
  pub record IsConnected (w' : W) : Type 0 where
    pub start : W
    pub status : WifiStatus
    pub middle : W
    pub ip : String
    pub asked : wifi_status host start ≡ (ok status, middle)
    pub active : status.support_active ≡ true
    pub addressed : support_ip_address host middle ≡ (ok ip, w')
    pub not_empty : is_empty ip ≡ false

  address_if-true :
      (active : Bool) (u w' : W) (p : Result String × W)
      → support_ip_address host u ≡ p
      → address_if host active u ≡ (ok true, w')
      → (active ≡ true)
        × (ip : String) × (support_ip_address host u ≡ (ok ip, w'))
        × (is_empty ip ≡ false)
  unfolding address_if
  address_if-true false u w' p c e = ground arith
  address_if-true true u w' (ok ip, v) c e = (refl, ip, ground arith, ground arith)
  address_if-true true u w' (err x, v) c e = ground arith

  support_ready-IsConnected : (u w' : W) → support_ready host u ≡ (ok true, w') → IsConnected w'
  unfolding support_ready
  support_ready-IsConnected u w' e =
      let (status, v, asked, rest) =
        >>=-eq-ok (wifi_status host) (λ st. address_if host st.support_active) u e in
      let (active, ip, addressed, ne) =
        address_if-true status.support_active v w' (support_ip_address host v) refl rest in
      record {
        start = u;
        status = status;
        middle = v;
        ip = ip;
        asked = asked;
        active = active;
        addressed = addressed;
        not_empty = ne;
      }

  -- The world in which the wait begins.
  abbrev joined : String → String → W → W
  joined ssid password w = (join_network host ssid password (disconnect host w).1).1

  connect-waits :
      (ssid password : String) (w w' : W)
      → connect host ssid password w ≡ (ok tt, w')
      → (is_empty (trim_space ssid) ≡ false)
        × (is_empty (trim_space password) ≡ false)
        × (wait_for_condition host (support_ready host) (joined ssid password w) ≡ (ok tt, w'))
  unfolding connect
  connect-waits ssid password w w' e = ground arith

  -- A connection that succeeds had an SSID and a password that are not blank, and it ended with
  -- the support connection active and with an IPv4 address.
  pub connect-IsConnected :
      (ssid password : String) (w w' : W)
      → connect host ssid password w ≡ (ok tt, w')
      → (is_empty (trim_space ssid) ≡ false)
        × (is_empty (trim_space password) ≡ false)
        × IsConnected w'
  connect-IsConnected ssid password w w' e =
      let (named, secret, waited) = connect-waits ssid password w w' e in
      let (k, b, ready) = (wait_for_condition_iff host (support_ready host) _ w').0 waited in
      let (u, last) = Ready-last ready in (named, secret, support_ready-IsConnected u w' last)
