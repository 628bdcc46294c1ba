-- ===== src/Config/Laws.antt =====
-- What a configuration satisfies that was loaded, and that the command line sets all of it.
use rook_servicechannel_agen.Common.{
  String, Bool, true, false, none, List, [], ◌∷◌, ◌≡◌, refl, arith, inl, inr, Bool-cases,
}
use rook_servicechannel_agen.Action.{Result, ok, Result-cases}
use rook_servicechannel_agen.Config.Flags.{parse_flags}
use rook_servicechannel_agen.Config.{
  Command, run, service, interactive, config, start, status, pin, ping, stop, scan_wifi,
  wifi_status, connect_wifi, disconnect_wifi, vpn_status, vpn_start, vpn_stop, cleanup, other,
  command_text, Config, parse_command, find_flag, validate_config, is_run, after_print,
  after_interactive, checked, finish, defaults, load,
}

-- The configuration is valid, and the command is what the two mode flags make of it.
abbrev pub IsEffective : Config → Type 0
IsEffective c =
    (validate_config c ≡ none)
    × (c.interactive_mode ≡ true → c.command ≡ interactive)
    × (c.print_config ≡ true → is_run c.command ≡ false)

checked-ok : (c d : Config) → checked c ≡ ok d → (d ≡ c) × (validate_config c ≡ none)
checked-ok c d e = ground arith

modes-print :
    (c d : Config)
    → after_interactive (after_print c) ≡ ok d
    → d.print_config ≡ true
    → is_run d.command ≡ false
modes-print c d e p = elim (Bool-cases (is_run c.command)) [
  | inl r ↦ ground arith
  | inr r ↦ ground arith
]

modes-interactive :
    (c d : Config)
    → after_interactive (after_print c) ≡ ok d
    → d.interactive_mode ≡ true
    → d.command ≡ interactive
modes-interactive c d e p = ground arith

finish-IsEffective : (c d : Config) → finish c ≡ ok d → IsEffective d
unfolding finish
finish-IsEffective c d e = elim (Result-cases (after_interactive (after_print c))) [
  | inl (x, modes) ↦
      let (same, valid) = checked-ok x d (ground arith) in
      let whole : after_interactive (after_print c) ≡ ok d = ground arith in
      (rw same valid, modes-interactive c d whole, modes-print c d whole)
  | inr (x, failed) ↦ ground arith
]

-- Whether the command line can name the command.
abbrev pub is_explicit : Command → Bool
is_explicit run = false
is_explicit (other s) = false
is_explicit _ = true

parse_command-text :
    (c : Command) (args : List String)
    → is_explicit c ≡ true
    → parse_command (command_text c ∷ args) ≡ ok (c, args)
unfolding parse_command command_text
parse_command-text run args h = ground arith
parse_command-text (other s) args h = ground arith
parse_command-text service args h = refl
parse_command-text interactive args h = refl
parse_command-text config args h = refl
parse_command-text start args h = refl
parse_command-text status args h = refl
parse_command-text pin args h = refl
parse_command-text ping args h = refl
parse_command-text stop args h = refl
parse_command-text scan_wifi args h = refl
parse_command-text wifi_status args h = refl
parse_command-text connect_wifi args h = refl
parse_command-text disconnect_wifi args h = refl
parse_command-text vpn_status args h = refl
parse_command-text vpn_start args h = refl
parse_command-text vpn_stop args h = refl
parse_command-text cleanup args h = refl

-- A flag for each text of a configuration.
abbrev pub flag_arguments : Config → List String
flag_arguments c =
    "--backend-url" ∷ c.backend_url ∷ "--console-id" ∷ c.console_id ∷ "--log-level" ∷ c.log_level
    ∷ "--state-path" ∷ c.state_path ∷ "--socket-path" ∷ c.socket_path ∷ "--pin" ∷ c.session_pin
    ∷ "--ssid" ∷ c.wifi_ssid ∷ "--wifi-password" ∷ c.wifi_password ∷ []

-- The command line that stands for a configuration.
abbrev pub arguments : Config → List String
arguments c = command_text c.command ∷ flag_arguments c

-- Every text of the variables is overwritten.
parse_flags-arguments :
    (c d : Config)
    → c.print_config ≡ d.print_config
    → c.interactive_mode ≡ d.interactive_mode
    → c.command ≡ d.command
    → parse_flags find_flag (flag_arguments c) d ≡ ok c
unfolding parse_flags
parse_flags-arguments c d p i k = ground arith

finish-plain :
    (c : Config)
    → c.print_config ≡ false
    → c.interactive_mode ≡ false
    → validate_config c ≡ none
    → finish c ≡ ok c
unfolding finish
finish-plain c p i v = ground arith

module _ (config_dir : Result String) (join_path : List String → String) where
  -- A configuration that was loaded is valid; its command is the interactive one if that mode was
  -- asked for, and is not the plain run if the configuration is to be printed.
  pub load-IsEffective :
      (args env : List String) {c : Config}
      → load config_dir join_path args env ≡ ok c
      → IsEffective c
  unfolding load
  load-IsEffective args env {c} e = elim (Result-cases (parse_command args)) [
    | inr (x, failed) ↦ ground arith
    | inl ((command, rest), parsed) ↦
        elim (Result-cases
          (parse_flags find_flag rest (defaults config_dir join_path command env))) [
            | inr (x, failed) ↦ ground arith
            | inl (d, set) ↦ finish-IsEffective d c (ground arith)
          ]
  ]

  -- A valid configuration with a command that can be named and without the two mode flags is
  -- loaded from the command line that has a flag for each of its texts, whatever the environment
  -- and the texts are.
  pub load-arguments :
      (c : Config) (env : List String)
      → validate_config c ≡ none
      → is_explicit c.command ≡ true
      → c.print_config ≡ false
      → c.interactive_mode ≡ false
      → load config_dir join_path (arguments c) env ≡ ok c
  unfolding load defaults
  load-arguments c env v x p i = ground (
    arith,
    parse_command-text c.command (flag_arguments c) x,
    parse_flags-arguments c (defaults config_dir join_path c.command env) p i refl,
    finish-plain c p i v,
  )
