-- ===== src/Main/Stops.antt =====
-- The end of a session over several processes: what one process stops, no later one knows.
use rook_servicechannel_agen.Common.{ℕ, String, false, List, [], ◌∷◌, ◌≡◌, refl, sym, ap, ◌∙◌}
use rook_servicechannel_agen.Text.{is_empty}
use rook_servicechannel_agen.Errors.{message}
use rook_servicechannel_agen.Action.{Result, ok}
use rook_servicechannel_agen.Host.{Host}
use rook_servicechannel_agen.Session.Files.{Laws}
use rook_servicechannel_agen.Runtime.State.{Agent, new}
use rook_servicechannel_agen.Runtime.Manager.{subscribe}
use rook_servicechannel_agen.Runtime.Calls.{stop_session}
use rook_servicechannel_agen.Runtime.Heartbeat.{IsValid}
use rook_servicechannel_agen.Runtime.Sessions.Unknown.{
  IsUnknown, IsGone-IsUnknown, resolve_pin-IsUnknown,
}
use rook_servicechannel_agen.Runtime.Sessions.Stop.{stop_session-IsGone}
use rook_servicechannel_agen.Config.{Config, stop, pin, load}
use rook_servicechannel_agen.App.{new_app, with_agent}
use rook_servicechannel_agen.App.Run.{Surroundings, run_command}
use rook_servicechannel_agen.App.Commands
use rook_servicechannel_agen.App.Commands.{print_session_pin}
use rook_servicechannel_agen.Main.{Exit, exit_of, run_config, main}
use rook_servicechannel_agen.Main.Runs.{
  main-loaded, started, run_config-pin, run_config-runs, call_then_print_inv,
}

-- What a process with the command `pin` leaves that finds no session.
abbrev pub no_pin : {W : Type 0} → W → Exit W
no_pin w = record {
  code = 1;
  output = [];
  errors = "run app: no active session state found; use start first or provide --pin\n" ∷ [];
  world = w;
}

module _ {W : Type 0} (duration_text : ℕ → String) (host : Host W) (around : Surroundings W)
    (config_dir : Result String) (join_path : List String → String) where
  abbrev process : List String → List String → W → Exit W
  process args env w = main duration_text host around join_path config_dir args env w

  started-IsValid :
      (c : Config) (w : W) → IsValid (started duration_text host around join_path c w).agent
  unfolding subscribe new_app
  started-IsValid c w = record { reached = tt; fresh = tt }

  pub pin-IsUnknown :
      (c : Config) (w : W)
      → is_empty c.socket_path ≡ false
      → c.command ≡ pin
      → c.session_pin ≡ ""
      → IsUnknown host (started duration_text host around join_path c w).agent
      → run_config duration_text host around join_path c w ≡ no_pin w
  unfolding with_agent subscribe new_app message
  pin-IsUnknown c w h k none_given gone =
      run_config-pin duration_text host around join_path c w h k none_given
        (resolve_pin-IsUnknown host (started duration_text host around join_path c w).agent gone)

  pub later-IsUnknown :
      (u : Agent W) (c : Config)
      → u.manager.state_store.file ≡ c.state_path
      → IsUnknown host u
      → IsUnknown host (started duration_text host around join_path c u.world).agent
  unfolding new_app new subscribe
  later-IsUnknown u c same gone = record {
    reason = gone.reason;
    missing = rw same at gone.missing;
    not_found = gone.not_found;
  }

  module _ (laws : Laws host) where
    stop_inv :
        (c : Config) (w : W)
        → is_empty c.socket_path ≡ false
        → c.command ≡ stop
        → (run_config duration_text host around join_path c w).code ≡ 0
        → (u : Agent W) × (stop_session host c.session_pin
              (started duration_text host around join_path c w).agent
            ≡ (ok tt, u))
          × ((run_config duration_text host around join_path c w).world ≡ u.world)
    unfolding run_command Commands.stop
    stop_inv c w h k e =
        let a = started duration_text host around join_path c w in
        let whole =
          run_config-runs duration_text host around join_path c w h
          ∙ ap (λ x. let r = run_command duration_text host around x a in exit_of r.0 r.1) k in
        let (x, u, stopped, left) =
          call_then_print_inv duration_text host around join_path (stop_session host c.session_pin)
            (λ _. "session ended\n" ∷ []) a _ refl (sym (ap (λ q. q.code) whole) ∙ e) in
        (u, stopped, ap (λ q. q.world) (whole ∙ left))

    -- After a process whose configuration is loaded with the command `stop`, and which exits with
    -- code 0, a process whose configuration is loaded with the command `pin`, the same state path
    -- and no PIN of its own, exits with code 1: it prints that there is no session to the standard
    -- error, nothing to the standard output, and changes nothing.
    pub main-stop :
        (args env args' env' : List String) (w : W) {c c' : Config}
        → load config_dir join_path args env ≡ ok c
        → c.command ≡ stop
        → load config_dir join_path args' env' ≡ ok c'
        → c'.command ≡ pin
        → c'.session_pin ≡ ""
        → c'.state_path ≡ c.state_path
        → (process args env w).code ≡ 0
        → let w' = (process args env w).world in process args' env' w' ≡ no_pin w'
    unfolding subscribe new_app new
    main-stop args env args' env' w {c} {c'} l k l' k' none_given same e =
        let (h, ran) = main-loaded duration_text host around join_path config_dir args env w l in
        let (u, stopped, left) = stop_inv c w h k (sym (ap (λ q. q.code) ran) ∙ e) in
        let (gone, kept) =
          stop_session-IsGone host laws c.session_pin _ u (started-IsValid c w) stopped in
        let after : (process args env w).world ≡ u.world = ap (λ q. q.world) ran ∙ left in
        let (h', ran') =
          main-loaded duration_text host around join_path config_dir args' env' u.world l' in
        let path : u.manager.state_store.file ≡ c'.state_path = ap (λ m. m.file) kept ∙ sym same in
        rw after (
          ran'
          ∙ pin-IsUnknown c' u.world h' k' none_given
              (later-IsUnknown u c' path (IsGone-IsUnknown host u gone)))
