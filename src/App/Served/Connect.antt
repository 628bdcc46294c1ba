-- ===== src/App/Served/Connect.antt =====
-- A connection to a WiFi network from the interactive mode of internal/app/app.go.
use Prim.Native.String.{◌++◌ as concat}
use rook_servicechannel_agen.Common.{
  String, false, Option, some, arith, List, [], ◌∷◌, ◌++◌, ◌≡◌, refl, ap, sym, ◌∙◌,
}
use rook_servicechannel_agen.Text.{is_empty, trim_space, fields_func, is_space, lowers_to, join}
use rook_servicechannel_agen.Action.{ok, ◌>>=◌, >>=-eq-ok}
use rook_servicechannel_agen.Json.{Json}
use rook_servicechannel_agen.Host.{Host}
use rook_servicechannel_agen.Backend.Client.{unmarshal}
use rook_servicechannel_agen.Network.Nmcli.{WifiStatus}
use rook_servicechannel_agen.Network.Wifi.Laws.{IsConnected, connect-IsConnected}
use rook_servicechannel_agen.Runtime.State.{Agent}
use rook_servicechannel_agen.Ipc.Contract.{
  connect_wifi, validate_request, ConnectWifiPayload, decode_connect,
}
use rook_servicechannel_agen.Ipc.Wire.{encode_connect}
use rook_servicechannel_agen.Ipc.Server.{handle_request, dispatch, handle_connect}
use rook_servicechannel_agen.Ipc.Server.Wifi.{Joined, handle_connect-success}
use rook_servicechannel_agen.Ipc.Client.RoundTrip.{raw_response}
use rook_servicechannel_agen.App.{App, write_line}
use rook_servicechannel_agen.App.Requests.{
  demand, handle_fields, handle_word, handle_interactive_command,
}
use rook_servicechannel_agen.App.Served.{served, sent_request, outcome-success}
use rook_servicechannel_agen.App.Served.Demand.{demand-answer}

-- The payload for an SSID and the words after it.
abbrev pub settings : String → List String → ConnectWifiPayload
settings ssid words = record { ssid = ssid; password = join words " " }

module _ {W : Type 0} (host : Host W) (id : String) where
  handle_request-connect :
      (p : ConnectWifiPayload) (g : Agent W)
      → is_empty (trim_space id) ≡ false
      → handle_request host (sent_request host id connect_wifi (some p)) g
        ≡ handle_connect host (sent_request host id connect_wifi (some p)) g
  unfolding handle_request validate_request dispatch
  handle_request-connect p g h = rw h refl

  connect-asks :
      (command ssid word : String) (words : List String) (a : App (Agent W))
      → fields_func is_space command ≡ "connectwifi" ∷ ssid ∷ word ∷ words
      → handle_interactive_command (served host id) command a
        ≡ (demand (served host id) connect_wifi (some (settings ssid (word ∷ words)))
              >>= (λ _. write_line (concat "wifi connected: " ssid)))
            a
  unfolding handle_interactive_command handle_word lowers_to
  connect-asks command ssid word words a e =
      ap (λ ws. handle_fields (served host id) command ws a) e

  unmarshal-parsed :
      {A : Type 0} (decode : Json → Option A) (s : String) (j : Json) (x : A)
      → host.parse_json s ≡ ok j
      → decode j ≡ some x
      → unmarshal host decode s ≡ ok x
  unfolding unmarshal
  unmarshal-parsed decode s j x e f = ground arith

  decode_connect-encode_connect :
      (p : ConnectWifiPayload) → decode_connect (encode_connect p) ≡ some p
  unfolding decode_connect encode_connect
  decode_connect-encode_connect p = refl

  -- An interactive "connectwifi" with an SSID and the words of a password that reports no error,
  -- over a connection to a service whose requests have an id that is not blank, where the text of
  -- the payload is read back: the service has connected to that SSID with the words joined by single
  -- spaces, the support connection was then active and had an IPv4 address, the agent has the state
  -- and the active connection of the WiFi as they were read after it, its heartbeat loops are as
  -- before, and what is printed is that the WiFi is connected.
  pub handle_interactive_command-connect :
      (command ssid word : String) (words : List String) (a b : App (Agent W))
      → is_empty (trim_space id) ≡ false
      → fields_func is_space command ≡ "connectwifi" ∷ ssid ∷ word ∷ words
      → host.parse_json (host.print_json (encode_connect (settings ssid (word ∷ words))))
        ≡ ok (encode_connect (settings ssid (word ∷ words)))
      → handle_interactive_command (served host id) command a ≡ (ok tt, b)
      → (st : WifiStatus) × (joined : Joined host ssid
          (join (word ∷ words) " ")
          st
          a.agent.world
          b.agent.world)
        × IsConnected host joined.middle
        × (b.output ≡ a.output ++ concat (concat "wifi connected: " ssid) "\n" ∷ [])
  handle_interactive_command-connect command ssid word words a b named split printed e =
      let g = a.agent.world in
      let p = settings ssid (word ∷ words) in
      let req = sent_request host id connect_wifi (some p) in
      let (_, c, asked, wrote) =
        >>=-eq-ok (demand (served host id) connect_wifi (some p))
          (λ _. write_line (concat "wifi connected: " ssid)) a
          (sym (connect-asks command ssid word words a split) ∙ e) in
      let (h, left, quiet) = demand-answer host id connect_wifi (some p) a c asked in
      let won =
        outcome-success (λ j. ok tt) tt connect_wifi _
          (raw_response (handle_request host req g).0.response) refl h in
      let handled = handle_request-connect p g named in
      let done = ap (λ x. x.0.response.success) (sym handled) ∙ won in
      let read =
        unmarshal-parsed decode_connect req.payload (encode_connect p) p printed
          (decode_connect-encode_connect p) in
      let (st, joined, _) = handle_connect-success host req p g read done in
      let after : b.agent.world ≡ (handle_connect host req g).1 =
        sym (ap (λ x. x.1.agent.world) wrote) ∙ left ∙ ap (λ x. x.1) handled in
      let held : Joined host ssid (join (word ∷ words) " ") st g b.agent.world = rw after joined in
      (
        st,
        held,
        (connect-IsConnected host ssid (join (word ∷ words) " ") g.world held.middle
            held.connected).2,
        sym (ap (λ x. x.1.output) wrote)
            ∙ ap (λ o. o ++ concat (concat "wifi connected: " ssid) "\n" ∷ []) quiet,
      )
