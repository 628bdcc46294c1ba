-- ===== src/Network/Nmcli.antt =====
-- Reading the terse output of nmcli: `parseNMCLIConnection` and the loops of `Scan` and `Status`
-- in internal/network/network.go.
pub mod RoundTrip
pub mod Status
pub mod Scan
use Prim.Native.Char.{code}
use Prim.Native.String.{[], ◌∷◌}
use rook_servicechannel_agen.Common.{
  String, Bool, true, false, ◌&&◌, ◌||◌, not, Option, none, some, List, [], ◌∷◌, ◌++◌, any, ◌==◌,
  str_eq, if◌then◌else◌,
}
use rook_servicechannel_agen.Text.{
  colon, backslash, is_empty, trim_space, unescape_colons, split_lines, reverse_onto, less,
}

abbrev pub support_connection_name : String
support_connection_name = "rook-support-wifi"

pub data ConnectionState : Type 0 where
  connected disconnected : ConnectionState

pub record WifiNetwork : Type 0 where
  pub ssid : String

pub record WifiStatus : Type 0 where
  pub state : ConnectionState
  pub any_active : Bool
  pub support_active : Bool
  pub active_connection_name : String

-- The loop from the end of the line: what is left of the separator, in reverse, and what is right
-- of it. A character that stands to the left of a backslash is skipped.
unfoldable pub scan_back : Bool → String → String → Option (String × String)
scan_back escaped [] after = none
scan_back escaped (c ∷ before) after =
    let next = scan_back (not escaped && code c == backslash) before (c ∷ after) in
    if not escaped && code c == colon then some (before, after) else next

abbrev field_text : String → String
field_text s = trim_space (unescape_colons s)

abbrev both : String → String → Option (String × String)
both name kind = if is_empty name || is_empty kind then none else some (name, kind)

-- `parseNMCLIConnection`: name and type; `none` is `ok == false`.
unfoldable pub parse_connection : String → Option (String × String)
parse_connection line = elim (scan_back false (reverse_onto line []) []) [
  | none ↦ none
  | some (before, after) ↦
      if is_empty before || is_empty after
      then none
      else both (field_text (reverse_onto before [])) (field_text after)
]

-- `isWiFiConnectionType`
unfoldable pub is_wifi_type : String → Bool
is_wifi_type kind = str_eq kind "wifi" || str_eq kind "802-11-wireless" || str_eq kind "wireless"

-- What one active connection adds to the status.
unfoldable pub note_connection : String → String → WifiStatus → WifiStatus
note_connection name kind st = if not (is_wifi_type kind) then st else record {
  state = if str_eq name support_connection_name then connected else st.state;
  any_active = true;
  support_active = str_eq name support_connection_name || st.support_active;
  active_connection_name =
      if is_empty st.active_connection_name then name else st.active_connection_name;
}

-- One round of the loop of `WiFiManager.Status`; a blank line has no separator in it, but the
-- code tests for it first.
unfoldable pub note_line : String → WifiStatus → WifiStatus
note_line line st =
    if is_empty (trim_space line) then st else elim (parse_connection (trim_space line)) [
      | none ↦ st
      | some (name, kind) ↦ note_connection name kind st
    ]

unfoldable pub note_lines : List String → WifiStatus → WifiStatus
note_lines [] st = st
note_lines (line ∷ lines) st = note_lines lines (note_line line st)

abbrev pub no_wifi : WifiStatus
no_wifi = record {
  state = disconnected;
  any_active = false;
  support_active = false;
  active_connection_name = "";
}

-- `WiFiManager.Status` from the output of nmcli
unfoldable pub parse_status : String → WifiStatus
parse_status output = note_lines (split_lines output) no_wifi

-- The loop of `Scan`: the SSIDs seen, and those collected in their order.
unfoldable pub collect : List String → List String → List String → List String
collect [] seen networks = networks
collect (line ∷ lines) seen networks =
    let ssid = trim_space (unescape_colons line) in
    let skip = is_empty ssid || any (str_eq ssid) seen in
    collect lines (if skip then seen else ssid ∷ seen)
      (if skip then networks else networks ++ ssid ∷ [])

-- `sort.Slice` by SSID; the SSIDs are distinct, so the order is determined.
unfoldable pub insert_sorted : String → List String → List String
insert_sorted s [] = s ∷ []
insert_sorted s (t ∷ r) = if less t s then t ∷ insert_sorted s r else s ∷ t ∷ r

unfoldable pub sort : List String → List String
sort [] = []
sort (s ∷ r) = insert_sorted s (sort r)

-- `WiFiManager.Scan` from the output of nmcli
unfoldable pub parse_scan : String → List String
parse_scan output = sort (collect (split_lines output) [] [])
