-- ===== src/Tests/Network.antt =====
-- The networks, the backend and the VPN of a small host.
use rook_servicechannel_agen.Common.{
  ℕ, ◌≤◌, true, false, str_eq, none, if◌then◌else◌, ◌↔◌, some, ◌∷◌, ◌≡◌, refl, arith,
}
use Prim.Native.String.{◌∷◌, ◌++◌ as concat}
use rook_servicechannel_agen.Text.{
  contains, is_empty, trim_space, split_lines, reverse_onto, unescape_colons,
}
use rook_servicechannel_agen.Errors.{text}
use rook_servicechannel_agen.Action.{ok}
use rook_servicechannel_agen.Backend.Client.{Client}
use rook_servicechannel_agen.Network.Wait.{wait_for_condition, wait_rounds}
use rook_servicechannel_agen.Network.Wait.Laws.{Ready, wait_for_condition_iff}
use rook_servicechannel_agen.Network.Nmcli.{
  parse_connection, parse_status, parse_scan, note_lines, note_line, note_connection, is_wifi_type,
  scan_back,
}
use rook_servicechannel_agen.Network.Nmcli.RoundTrip.{escape_colons, parse_connection-escape}
use rook_servicechannel_agen.Network.Nmcli.Status.{Describes, wifi_names, parse_status_lem}
use rook_servicechannel_agen.Network.Nmcli.Scan.{IsAscending, Elem, Listed, parse_scan_lem}
use rook_servicechannel_agen.Network.Wifi.{
  connect, disconnect, wifi_status, support_ip_address, address_if, support_ready,
}
use rook_servicechannel_agen.Network.Exec.{
  Exec, new_vpn_manager, no_vpn, names_stopped, names_no_interface, vpn_status-stopped,
}
use rook_servicechannel_agen.Network.Ipv4.{extract_ipv4}
use rook_servicechannel_agen.Network.Vpn.{vpn_status, cleanup}
use rook_servicechannel_agen.Network.Vpn.Laws.{StopTolerated, DeleteTolerated, cleanup_lem}
use rook_servicechannel_agen.Common.{String, []}
use rook_servicechannel_agen.Text.{fields_func}
use rook_servicechannel_agen.Network.Ipv4.{is_separator}
use rook_servicechannel_agen.Network.Ipv4.Bounds.{IsFound, extract_ipv4-IsFound}
use rook_servicechannel_agen.Tests.Toy.{Disk, toy}
use rook_servicechannel_agen.Tests.Agents.{empty_disk}

abbrev console : Client
console = record {
  base_url = record { scheme = "http"; host = "console"; whole = "http://console" };
}

joined : connect toy "shop" "secret" empty_disk ≡ (ok tt, empty_disk)
unfolding connect disconnect support_ready wifi_status support_ip_address address_if
    wait_for_condition wait_rounds trim_space parse_status note_lines note_line note_connection
    is_wifi_type split_lines parse_connection scan_back reverse_onto unescape_colons extract_ipv4
joined = refl

wait_for_condition_iff_example :
    (wait_for_condition toy (support_ready toy) empty_disk ≡ (ok tt, empty_disk))
    ↔ ((k : ℕ) × (k ≤ 2) × Ready (support_ready toy) k empty_disk empty_disk)
wait_for_condition_iff_example =
    wait_for_condition_iff toy (support_ready toy) empty_disk empty_disk

cleanup_lem_example :
    let (stopped, w1) =
      toy.run "systemctl" ("stop" ∷ "rook-openvpn-client.service" ∷ []) empty_disk in
    let (deleted, w2) = toy.run "nmcli" ("connection" ∷ "delete" ∷ "rook-support-wifi" ∷ []) w1 in
    ((cleanup toy empty_disk).1 ≡ w2)
    × (((cleanup toy empty_disk).0 ≡ ok tt) ↔ (StopTolerated stopped × DeleteTolerated deleted))
cleanup_lem_example = cleanup_lem toy empty_disk

parse_connection-escape_example :
    parse_connection (concat (escape_colons "my:net") (":" ∷ "wifi")) ≡ some ("my:net", "wifi")
unfolding trim_space
parse_connection-escape_example =
    parse_connection-escape "my:net" "wifi" (ground arith) (ground arith) refl refl refl refl

parse_status_lem_example :
    Describes
      (wifi_names (split_lines "home:wifi\nlo:loopback"))
      (parse_status "home:wifi\nlo:loopback")
parse_status_lem_example = parse_status_lem "home:wifi\nlo:loopback"

parse_scan_lem_example :
    IsAscending (parse_scan "shop\nguest\nshop\n")
    × ((t : String)
        → Elem t (parse_scan "shop\nguest\nshop\n")
          ↔ (Listed t (split_lines "shop\nguest\nshop\n") × (is_empty t ≡ false)))
parse_scan_lem_example = parse_scan_lem "shop\nguest\nshop\n"

-- Commands on a machine on which the VPN was never started.
abbrev idle_machine : Exec Disk
idle_machine name args disk =
    if str_eq name "systemctl"
    then (("inactive\n", some (text "exit status 3")), disk)
    else (("Device \"rookvpn\" does not exist.\n", some (text "exit status 1")), disk)

is_down : names_stopped (trim_space "inactive\n") ≡ true
unfolding contains trim_space
is_down = refl

is_absent : names_no_interface (trim_space "Device \"rookvpn\" does not exist.\n") ≡ true
unfolding contains trim_space
is_absent = refl

vpn_status-stopped_example :
    vpn_status (new_vpn_manager idle_machine none toy) empty_disk ≡ (ok no_vpn, empty_disk)
vpn_status-stopped_example =
    vpn_status-stopped idle_machine toy empty_disk empty_disk empty_disk empty_disk "inactive\n"
      "Device \"rookvpn\" does not exist.\n" (text "exit status 3") (text "exit status 1") refl
      is_down refl is_absent refl

abbrev address_output : String
address_output = "5: rookvpn    inet 10.8.0.2/24 scope global rookvpn\n"

extract_ipv4-IsFound_example :
    IsFound (fields_func is_separator address_output) (extract_ipv4 address_output)
extract_ipv4-IsFound_example = extract_ipv4-IsFound address_output
