-- ===== src/Main/Summary.antt =====
-- The command `config`, from the command line to what it prints.
use Prim.Native.String.{◌++◌ as concat}
use rook_servicechannel_agen.Common.{ℕ, String, false, none, List, [], ◌∷◌, ◌≡◌, ap, ◌∙◌}
use rook_servicechannel_agen.Action.{Result}
use rook_servicechannel_agen.Host.{Host}
use rook_servicechannel_agen.Runtime.Manager.{subscribe}
use rook_servicechannel_agen.Config.{Config, config, validate_config, summary}
use rook_servicechannel_agen.Config.Laws.{arguments, is_explicit, load-arguments}
use rook_servicechannel_agen.App.{new_app}
use rook_servicechannel_agen.App.Run.{Surroundings, run_command}
use rook_servicechannel_agen.Main.{exit_of, main}
use rook_servicechannel_agen.Main.Runs.{main-loaded, started, run_config-runs}

module _ {W : Type 0} (duration_text : ℕ → String) (host : Host W) (around : Surroundings W)
    (config_dir : Result String) (join_path : List String → String) where
  -- A process with the command line that stands for a valid configuration with the command `config`
  -- and without the two mode flags, whatever its environment is, exits with code 0, prints the
  -- summary of just that configuration, and changes nothing.
  pub main-config :
      (c : Config) (env : List String) (w : W)
      → c.command ≡ config
      → validate_config c ≡ none
      → c.print_config ≡ false
      → c.interactive_mode ≡ false
      → main duration_text host around join_path config_dir (arguments c) env w
        ≡ record { code = 0; output = concat (summary c) "\n" ∷ []; errors = []; world = w }
  unfolding run_command subscribe new_app
  main-config c env w k v p i =
      let named = ap is_explicit k in
      let (h, ran) =
        main-loaded duration_text host around join_path config_dir (arguments c) env w
          (load-arguments config_dir join_path c env v named p i) in
      let a = started duration_text host around join_path c w in
      let runs = ap (λ x. run_command duration_text host around x a) k in
      ran
      ∙ run_config-runs duration_text host around join_path c w h
      ∙ ap (λ r. exit_of r.0 r.1) runs
