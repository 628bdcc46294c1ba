-- ===== src/Network/Nmcli/Status.antt =====
-- What the loop of `WiFiManager.Status` says of the lines that it reads.
use rook_servicechannel_agen.Common.{
  String, Bool, true, false, ◌||◌, Option, none, some, List, [], ◌∷◌, any, is_some, ◌≡◌, ◌↔◌, arith,
  str_eq, if◌then◌else◌, Option-cases, inl, inr, ◌∙◌,
}
use mathlib.Core.List.{head?}
use rook_servicechannel_agen.Text.{is_empty, trim_space, split_lines}
use rook_servicechannel_agen.Network.Nmcli.{
  connected, WifiStatus, support_connection_name, parse_connection, is_wifi_type, note_connection,
  note_line, note_lines, no_wifi, parse_status,
}

-- The WiFi connection that a line names, if it names one.
abbrev pub wifi_of : Option (String × String) → Option String
wifi_of none = none
wifi_of (some (name, kind)) = if is_wifi_type kind then some name else none

abbrev pub wifi_line : String → Option String
wifi_line line =
    if is_empty (trim_space line) then none else wifi_of (parse_connection (trim_space line))

-- The names of the WiFi connections in the lines, in order.
abbrev pub add_name : Option String → List String → List String
add_name none names = names
add_name (some name) names = name ∷ names

abbrev pub wifi_names : List String → List String
wifi_names [] = []
wifi_names (line ∷ lines) = add_name (wifi_line line) (wifi_names lines)

abbrev first : List String → String
first [] = ""
first (name ∷ names) = name

abbrev pub is_support : String → Bool
is_support name = str_eq name support_connection_name

-- The status after some more names.
abbrev after : List String → WifiStatus → WifiStatus
after names st = record {
  state = if any is_support names then connected else st.state;
  any_active = is_some (head? names) || st.any_active;
  support_active = any is_support names || st.support_active;
  active_connection_name =
      if is_empty st.active_connection_name then first names else st.active_connection_name;
}

abbrev with_name : Option String → WifiStatus → WifiStatus
with_name none st = st
with_name (some name) st = after (name ∷ []) st

note_line-with_name :
    (line : String) (st : WifiStatus) → note_line line st ≡ with_name (wifi_line line) st
unfolding note_line note_connection
note_line-with_name line st = ground arith

-- A name that was parsed is not empty.
parse_connection-ne :
    (line : String) {name kind : String}
    → parse_connection line ≡ some (name, kind)
    → is_empty name ≡ false
unfolding parse_connection
parse_connection-ne line e = ground arith

after-cons :
    (name : String) (names : List String) (st : WifiStatus)
    → is_empty name ≡ false
    → after names (after (name ∷ []) st) ≡ after (name ∷ names) st
after-cons name names st h = ground arith

wifi_line-ne : (line : String) {name : String} → wifi_line line ≡ some name → is_empty name ≡ false
wifi_line-ne line e = elim (Option-cases (parse_connection (trim_space line))) [
  | inl missing ↦ ground arith
  | inr (found, parsed) ↦ ground (arith, parse_connection-ne (trim_space line) parsed)
]

note_lines-after :
    (lines : List String) (st : WifiStatus) → note_lines lines st ≡ after (wifi_names lines) st
unfolding note_lines
note_lines-after [] st = ground arith
note_lines-after (line ∷ lines) st = elim (Option-cases (wifi_line line)) [
  | inl skipped ↦ rw (note_line-with_name line st, skipped) (note_lines-after lines st)
  | inr (name, found) ↦
      rw (note_line-with_name line st, found)
        (note_lines-after lines (after (name ∷ []) st)
          ∙ after-cons name (wifi_names lines) st (wifi_line-ne line found))
]

-- What a status says of the names of the active WiFi connections.
abbrev pub Describes : List String → WifiStatus → Type 0
Describes names st =
    (st.any_active ≡ is_some (head? names))
    × (st.support_active ≡ any is_support names)
    × ((st.state ≡ connected) ↔ (st.support_active ≡ true))
    × (some st.active_connection_name ≡ (if st.any_active then head? names else some ""))

after-Describes : (names : List String) → Describes names (after names no_wifi)
after-Describes [] = ground arith
after-Describes (name ∷ names) = ground arith

-- The status that is read from the output of nmcli, by the names of the active connections of a
-- WiFi type in it: there is an active one if there is a name; the support connection is active
-- if its name is among them, and the state is connected exactly then; the active connection is
-- the first one.
pub parse_status_lem :
    (output : String) → Describes (wifi_names (split_lines output)) (parse_status output)
unfolding parse_status
parse_status_lem output =
    rw (note_lines-after (split_lines output) no_wifi)
      (after-Describes (wifi_names (split_lines output)))
