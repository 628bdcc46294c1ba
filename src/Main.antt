-- ===== src/Main.antt =====
-- cmd/rook-agent/main.go: the process, from its arguments and its environment to its exit code.
pub mod Runs
pub mod Summary
pub mod Sessions
pub mod Stops
pub mod Service
use Prim.Native.String.{◌++◌ as concat}
use rook_servicechannel_agen.Common.{ℕ, String, List, [], ◌∷◌}
use rook_servicechannel_agen.Errors.{Error, message}
use rook_servicechannel_agen.Action.{Result, ok, err}
use rook_servicechannel_agen.Host.{Host}
use rook_servicechannel_agen.Config.{Config, load}
use rook_servicechannel_agen.App.{App, new_app}
use rook_servicechannel_agen.App.Run.{Surroundings, run_app}

-- What a process leaves: its exit code, what it wrote to the standard output, what `main` itself wrote to
-- the standard error, and the world, where the files are.
pub record Exit (W : Type 0) : Type 0 where
  pub code : ℕ
  pub output : List String
  pub errors : List String
  pub world : W

-- `fmt.Fprintf(os.Stderr, "...: %v\n", err)`
abbrev error_line : String → Error → List String
error_line before e = concat before (concat ": " (concat (message e) "\n")) ∷ []

abbrev pub exit_of : {W : Type 0} → Result (Unit {0}) → App W → Exit W
exit_of (ok _) a = record { code = 0; output = a.output; errors = []; world = a.agent.world }
exit_of (err e) a = record {
  code = 1;
  output = a.output;
  errors = error_line "run app" e;
  world = a.agent.world;
}

module _ {W : Type 0} (duration_text : ℕ → String) (host : Host W) (around : Surroundings W) where
  module _ (join_path : List String → String) where
    -- `main` once the configuration is loaded
    unfoldable pub run_config : Config → W → Exit W
    unfolding run_app new_app
    run_config cfg w =
        let (r, a) = run_app duration_text host around (new_app host join_path cfg w) in exit_of r a

    -- `main` by the result of `Load`
    abbrev pub run_loaded : Result Config → W → Exit W
    run_loaded (err e) w = record {
      code = 2;
      output = [];
      errors = error_line "load config" e;
      world = w;
    }
    run_loaded (ok cfg) w = run_config cfg w

    -- `main`; `config_dir` is what `os.UserConfigDir` returns.
    unfoldable pub main : Result String → List String → List String → W → Exit W
    unfolding load
    main config_dir args env w = run_loaded (load config_dir join_path args env) w
