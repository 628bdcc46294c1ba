-- ===== src/Tests/Config.antt =====
-- A configuration from a command line.
use rook_servicechannel_agen.Common.{String, true, false, none, List, [], ◌∷◌, ◌≡◌, refl}
use rook_servicechannel_agen.Text.{trim_space, has_prefix, join}
use rook_servicechannel_agen.Action.{Result, ok}
use rook_servicechannel_agen.Config.Flags.{parse_flags, classify, split_equals, parse_bool}
use rook_servicechannel_agen.Config.{
  Config, config, stop, load, parse_command, find_command, command_text, env_or_default, env_value,
  defaults, finish, validate_config,
}
use rook_servicechannel_agen.Config.Laws.{IsEffective, arguments, load-IsEffective, load-arguments}

abbrev pub config_dir : Result String
config_dir = ok "/home/rook/.config"

abbrev pub join_path : List String → String
join_path parts = join parts "/"

abbrev pub printing : Config
printing = record {
  backend_url = "http://console";
  console_id = "";
  log_level = "debug";
  print_config = true;
  interactive_mode = false;
  state_path = join_path ("/home/rook/.config" ∷ "rook-agent" ∷ "session.json" ∷ []);
  socket_path = join_path ("/home/rook/.config" ∷ "rook-agent" ∷ "agent.sock" ∷ []);
  session_pin = "";
  wifi_ssid = "";
  wifi_password = "";
  command = config;
}

abbrev stopping : Config
stopping = record printing { print_config = false; command = stop }

loaded :
    load config_dir join_path
      ("--print-config" ∷ "--log-level=debug" ∷ [])
      ("ROOK_AGENT_BACKEND_URL=http://console" ∷ [])
    ≡ ok printing
unfolding load parse_command find_command command_text has_prefix parse_flags classify split_equals
    parse_bool defaults env_or_default env_value finish validate_config trim_space join
loaded = refl

load-IsEffective_example : IsEffective printing
load-IsEffective_example =
    load-IsEffective config_dir join_path ("--print-config" ∷ "--log-level=debug" ∷ [])
      ("ROOK_AGENT_BACKEND_URL=http://console" ∷ []) loaded

stopping_valid : validate_config stopping ≡ none
unfolding validate_config trim_space join
stopping_valid = refl

load-arguments_example : load config_dir join_path (arguments stopping) [] ≡ ok stopping
load-arguments_example =
    load-arguments config_dir join_path stopping [] stopping_valid refl refl refl
