-- ===== src/Config.antt =====
-- internal/config/config.go: the configuration from the command line and the environment.
pub mod Flags
pub mod Laws
use Prim.Native.String.{◌++◌ as concat}
use rook_servicechannel_agen.Common.{
  String, Bool, true, false, ◌&&◌, ◌||◌, not, Option, none, some, List, [], ◌∷◌, str_eq,
  if◌then◌else◌,
}
use rook_servicechannel_agen.Text.{is_empty, trim_space, has_prefix, quote}
use rook_servicechannel_agen.Errors.{Error, text, append, error_if, join_errors}
use rook_servicechannel_agen.Action.{Result, ok, err}
use rook_servicechannel_agen.Config.Flags.{Flag, string_var, bool_var, split_equals, parse_flags}

-- `Command`; every other text is `other`.
pub data Command : Type 0 where
  run service interactive config start status pin ping stop : Command
  scan_wifi wifi_status connect_wifi disconnect_wifi : Command
  vpn_status vpn_start vpn_stop cleanup : Command
  other : String → Command

unfoldable pub command_text : Command → String
command_text run = "run"
command_text service = "service"
command_text interactive = "interactive"
command_text config = "config"
command_text start = "start"
command_text status = "status"
command_text pin = "pin"
command_text ping = "ping"
command_text stop = "stop"
command_text scan_wifi = "scanwifi"
command_text wifi_status = "wifistatus"
command_text connect_wifi = "connectwifi"
command_text disconnect_wifi = "disconnectwifi"
command_text vpn_status = "vpnstatus"
command_text vpn_start = "vpnstart"
command_text vpn_stop = "vpnstop"
command_text cleanup = "cleanup"
command_text (other s) = s

pub record Config : Type 0 where
  pub backend_url : String
  pub console_id : String
  pub log_level : String
  pub print_config : Bool
  pub interactive_mode : Bool
  pub state_path : String
  pub socket_path : String
  pub session_pin : String
  pub wifi_ssid : String
  pub wifi_password : String
  pub command : Command

-- The commands that `parseCommand` knows.
abbrev pub explicit_commands : List Command
explicit_commands =
    service ∷ interactive ∷ config ∷ start ∷ status ∷ pin ∷ ping ∷ stop ∷ scan_wifi ∷ wifi_status
    ∷ connect_wifi ∷ disconnect_wifi ∷ vpn_status ∷ vpn_start ∷ vpn_stop ∷ cleanup ∷ []

unfoldable pub find_command : String → List Command → Option Command
unfolding command_text
find_command s [] = none
find_command s (c ∷ cs) = if str_eq s (command_text c) then some c else find_command s cs

-- `parseCommand`
unfoldable pub parse_command : List String → Result (Command × List String)
unfolding find_command has_prefix
parse_command [] = ok (run, [])
parse_command (arg ∷ args) =
    if has_prefix arg "-" then ok (run, arg ∷ args) else elim (find_command arg explicit_commands) [
      | some c ↦ ok (c, args)
      | none ↦ err (text (concat "unknown command " (quote arg)))
    ]

-- The value of a key in the map that `environmentMap` makes: of several items the last counts,
-- and an item with no equals sign none.
abbrev item_value : String → String × Option String → Option String → Option String
item_value key (k, none) later = later
item_value key (k, some v) none = if str_eq k key then some v else none
item_value key (k, some v) (some w) = some w

unfoldable pub env_value : String → List String → Option String
unfolding split_equals
env_value key [] = none
env_value key (item ∷ env) = item_value key (split_equals item) (env_value key env)

abbrev non_blank : Option String → String → String
non_blank none fallback = fallback
non_blank (some v) fallback = if is_empty (trim_space v) then fallback else v

-- `envOrDefault`
unfoldable pub env_or_default : List String → String → String → String
unfolding env_value
env_or_default env key fallback = non_blank (env_value key env) fallback

-- The flags of `Load`, by their names.
abbrev pub find_flag : String → Option (Flag Config)
find_flag name =
    if str_eq name "backend-url"
    then some (string_var λ v c. record c { backend_url = v })
    else if str_eq name "console-id"
    then some (string_var λ v c. record c { console_id = v })
    else if str_eq name "log-level"
    then some (string_var λ v c. record c { log_level = v })
    else if str_eq name "state-path"
    then some (string_var λ v c. record c { state_path = v })
    else if str_eq name "socket-path"
    then some (string_var λ v c. record c { socket_path = v })
    else if str_eq name "pin"
    then some (string_var λ v c. record c { session_pin = v })
    else if str_eq name "ssid"
    then some (string_var λ v c. record c { wifi_ssid = v })
    else if str_eq name "wifi-password"
    then some (string_var λ v c. record c { wifi_password = v })
    else if str_eq name "print-config"
    then some (bool_var λ b c. record c { print_config = b })
    else if str_eq name "interactive"
    then some (bool_var λ b c. record c { interactive_mode = b })
    else none

abbrev is_blank : String → Bool
is_blank s = is_empty (trim_space s)

-- `Config.Validate`
unfoldable pub validate_config : Config → Option Error
validate_config c = join_errors (
    append (error_if (is_blank c.backend_url) (text "backend URL must not be empty")) (
      append (error_if (is_blank c.log_level) (text "log level must not be empty")) (
        append (error_if (is_blank c.state_path) (text "state path must not be empty"))
          (error_if (is_blank c.socket_path) (text "socket path must not be empty")))))

abbrev pub is_run : Command → Bool
is_run run = true
is_run _ = false

abbrev pub is_interactive : Command → Bool
is_interactive interactive = true
is_interactive _ = false

-- `if cfg.PrintConfig && cfg.Command == RunCommand`
abbrev pub after_print : Config → Config
after_print c = if c.print_config && is_run c.command then record c { command = config } else c

-- `if cfg.Interactive`
abbrev pub after_interactive : Config → Result Config
after_interactive c =
    if c.interactive_mode
    then (if not (is_run c.command) && not (is_interactive c.command)
        then err (text "interactive mode cannot be combined with another explicit command")
        else ok (record c { command = interactive }))
    else ok c

abbrev pub checked : Config → Result Config
checked c = elim (validate_config c) [ some e ↦ err e | none ↦ ok c ]

-- `Load` after the flags were parsed.
unfoldable pub finish : Config → Result Config
finish c = elim (after_interactive (after_print c)) [ err e ↦ err e | ok c' ↦ checked c' ]

-- `os.UserConfigDir` and `filepath.Join` are parameters.
module _ (config_dir : Result String) (join_path : List String → String) where
  -- `defaultStatePath`, `defaultSocketPath`
  abbrev pub default_path : String → String
  default_path name = elim config_dir [
    | err e ↦ join_path (".rook-agent" ∷ name ∷ [])
    | ok d ↦
        if is_empty (trim_space d)
        then join_path (".rook-agent" ∷ name ∷ [])
        else join_path (d ∷ "rook-agent" ∷ name ∷ [])
  ]

  -- The variables before the flags are parsed.
  unfoldable pub defaults : Command → List String → Config
  unfolding env_or_default
  defaults c env = record {
    backend_url = env_or_default env "ROOK_AGENT_BACKEND_URL" "http://localhost:8080";
    console_id = env_or_default env "ROOK_AGENT_CONSOLE_ID" "";
    log_level = env_or_default env "ROOK_AGENT_LOG_LEVEL" "info";
    print_config = false;
    interactive_mode = false;
    state_path = env_or_default env "ROOK_AGENT_STATE_PATH" (default_path "session.json");
    socket_path = env_or_default env "ROOK_AGENT_SOCKET_PATH" (default_path "agent.sock");
    session_pin = env_or_default env "ROOK_AGENT_PIN" "";
    wifi_ssid = env_or_default env "ROOK_AGENT_WIFI_SSID" "";
    wifi_password = env_or_default env "ROOK_AGENT_WIFI_PASSWORD" "";
    command = c;
  }

  -- `Load`
  unfoldable pub load : List String → List String → Result Config
  unfolding finish parse_command
  load args env = elim (parse_command args) [
    | err e ↦ err e
    | ok (command, command_args) ↦
        elim (parse_flags find_flag command_args (defaults command env)) [
          | err e ↦ err e
          | ok c ↦ finish c
        ]
  ]

abbrev pub unset : String → String
unset s = if is_empty s then "<unset>" else s

-- `Config.Summary`
unfoldable pub summary : Config → String
unfolding command_text
summary c = concat "backend_url=" (
    concat c.backend_url (
      concat " console_id=" (
        concat (unset c.console_id) (
          concat " log_level=" (
            concat c.log_level (
              concat " state_path=" (
                concat c.state_path (
                  concat " socket_path="
                    (concat c.socket_path (concat " command=" (command_text c.command)))))))))))
