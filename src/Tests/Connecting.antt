-- ===== src/Tests/Connecting.antt =====
-- A connection to a network from the interactive mode of a small application.
use Prim.Native.String.{◌++◌ as concat}
use rook_servicechannel_agen.Common.{false, [], ◌∷◌, ◌++◌, ◌≡◌, refl}
use rook_servicechannel_agen.Text.{
  is_empty, is_space, trim_space, fields_func, lowers_to, join, split_lines, reverse_onto,
  unescape_colons,
}
use rook_servicechannel_agen.Action.{ok}
use rook_servicechannel_agen.Host.{Host}
use rook_servicechannel_agen.Backend.Client.{unmarshal}
use rook_servicechannel_agen.Network.Ipv4.{extract_ipv4}
use rook_servicechannel_agen.Network.Wait.{wait_for_condition, wait_rounds}
use rook_servicechannel_agen.Network.Nmcli.{
  WifiStatus, parse_connection, parse_status, note_lines, note_line, note_connection, is_wifi_type,
  scan_back,
}
use rook_servicechannel_agen.Network.Wifi.{
  connect, disconnect, wifi_status, support_ip_address, address_if, support_ready,
}
use rook_servicechannel_agen.Network.Wifi.Laws.{IsConnected}
use rook_servicechannel_agen.Runtime.State.{Agent}
use rook_servicechannel_agen.Ipc.Contract.{validate_request, action_name, decode_connect}
use rook_servicechannel_agen.Ipc.Wire.{encode_connect}
use rook_servicechannel_agen.Ipc.Reply.{success_response}
use rook_servicechannel_agen.Ipc.Server.{handle_request, dispatch, handle_connect, sync_wifi}
use rook_servicechannel_agen.Ipc.Server.Wifi.{Joined}
use rook_servicechannel_agen.Ipc.Client.{outcome}
use rook_servicechannel_agen.App.{App}
use rook_servicechannel_agen.App.Requests.{demand, handle_word, handle_interactive_command}
use rook_servicechannel_agen.App.Served.{served}
use rook_servicechannel_agen.App.Served.Connect.{settings, handle_interactive_command-connect}
use rook_servicechannel_agen.Tests.Toy.{Disk, toy}
use rook_servicechannel_agen.Tests.Agents.{fresh_agent}
use rook_servicechannel_agen.Tests.App.{app_at}

-- The small host with a codec for one payload.
abbrev codec : Host Disk
codec = record toy {
  parse_json = λ s. ok (encode_connect (settings "shop" ("open" ∷ "sesame" ∷ [])));
}

abbrev app : App (Agent Disk)
app = app_at fresh_agent

abbrev joined : App (Agent Disk)
joined = (handle_interactive_command (served codec "3") "connectwifi shop open sesame" app).1

named : is_empty (trim_space "3") ≡ false
unfolding trim_space is_space
named = refl

split :
    fields_func is_space "connectwifi shop open sesame"
    ≡ "connectwifi" ∷ "shop" ∷ "open" ∷ "sesame" ∷ []
unfolding fields_func is_space
split = refl

joins :
    handle_interactive_command (served codec "3") "connectwifi shop open sesame" app
    ≡ (ok tt, joined)
unfolding handle_interactive_command handle_word demand outcome lowers_to is_space fields_func
    handle_request validate_request dispatch action_name handle_connect success_response unmarshal
    decode_connect encode_connect join connect disconnect support_ready wifi_status
    support_ip_address address_if wait_for_condition wait_rounds trim_space parse_status note_lines
    note_line note_connection is_wifi_type split_lines parse_connection scan_back reverse_onto
    unescape_colons extract_ipv4 sync_wifi
joins = refl

handle_interactive_command-connect_example :
    (st : WifiStatus) × (held : Joined codec "shop"
      (join ("open" ∷ "sesame" ∷ []) " ")
      st
      app.agent.world
      joined.agent.world)
    × IsConnected codec held.middle
    × (joined.output ≡ app.output ++ concat (concat "wifi connected: " "shop") "\n" ∷ [])
handle_interactive_command-connect_example =
    handle_interactive_command-connect codec "3" "connectwifi shop open sesame" "shop" "open"
      ("sesame" ∷ []) app joined named split refl joins
