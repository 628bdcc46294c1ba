-- ===== src/Main/Service.antt =====
-- A process that runs the service, and the processes after it.
use rook_servicechannel_agen.Common.{
  ℕ, String, Bool, false, List, ◌≡◌, ◌⊎◌, inl, inr, refl, sym, ap, suc, ◌∙◌, arith,
}
use rook_servicechannel_agen.Text.{is_empty}
use rook_servicechannel_agen.Action.{Result, ok, err, >>=-eq-ok}
use rook_servicechannel_agen.Host.{Host}
use rook_servicechannel_agen.Session.Files.{Laws, ReadLaws}
use rook_servicechannel_agen.Runtime.State.{Agent, new}
use rook_servicechannel_agen.Runtime.Manager.{subscribe}
use rook_servicechannel_agen.Runtime.Calls.{run_service}
use rook_servicechannel_agen.Runtime.Stores.{run_service-HasStore}
use rook_servicechannel_agen.Runtime.Sessions.Unknown.{IsUnknown, run_service-IsUnknown}
use rook_servicechannel_agen.Config.{Config, Command, run, service, pin, load}
use rook_servicechannel_agen.App.{App, new_app, with_agent}
use rook_servicechannel_agen.App.Run.{Surroundings, run_command, service_mode}
use rook_servicechannel_agen.App.Service.{prepare_service, serve, run_service_mode, first_error}
use rook_servicechannel_agen.App.Service.Stores.{prepare_service-HasStore}
use rook_servicechannel_agen.Main.{Exit, exit_of, run_config, main}
use rook_servicechannel_agen.Main.Runs.{main-loaded, started, run_config-runs}
use rook_servicechannel_agen.Main.Stops.{no_pin, pin-IsUnknown, later-IsUnknown}

exit_of-ok : {W : Type 0} (r : Result (Unit {0})) (a : App W) → (exit_of r a).code ≡ 0 → r ≡ ok tt
exit_of-ok (ok tt) a e = refl
exit_of-ok (err x) a e = let failed : suc 0 ≡ 0 = e in ground arith

exit_of-world :
    {W : Type 0} (r : Result (Unit {0})) (a : App W) → (exit_of r a).world ≡ a.agent.world
exit_of-world (ok _) a = refl
exit_of-world (err x) a = refl

module _ {W : Type 0} (duration_text : ℕ → String) (host : Host W) (around : Surroundings W) where
  command-service :
      (k : Command)
      → (k ≡ service) ⊎ (k ≡ run)
      → (a : App W)
      → run_command duration_text host around k a ≡ service_mode duration_text host around a
  unfolding run_command
  command-service k (inl e) a = rw e refl
  command-service k (inr e) a = rw e refl

  -- A service that returns no error has run the one of the runtime without an error.
  serve_inv :
      (server_first : Bool) (served : Result (Unit {0})) (meanwhile : Agent W → Agent W)
      (a b : App W)
      → serve duration_text host meanwhile server_first served a ≡ (ok tt, b)
      → run_service host meanwhile a.agent ≡ (ok tt, b.agent)
  unfolding serve first_error with_agent
  serve_inv server_first served meanwhile a b e = ground arith

  service_inv :
      (a b : App W)
      → service_mode duration_text host around a ≡ (ok tt, b)
      → (u : App W) × (run_service host around.meanwhile u.agent ≡ (ok tt, b.agent))
        × (u.agent.manager.state_store ≡ a.agent.manager.state_store)
  unfolding run_service_mode
  service_inv a b e =
      let (_, u, prepared, ran) =
        >>=-eq-ok (prepare_service duration_text host)
          (λ _. serve duration_text host around.meanwhile around.server_first around.served) a e in
      let kept =
        (prepare_service-HasStore duration_text host a.agent.manager.state_store).at a refl in
      (
        u,
        serve_inv around.server_first around.served around.meanwhile u b ran,
        ap (λ p. p.1.agent.manager.state_store) (sym prepared) ∙ kept,
      )

  module _ (join_path : List String → String) where
    -- A process with the command of the service that exits with code 0 leaves no session.
    run_config-IsUnknown :
        (laws : Laws host) (reads : ReadLaws host)
        → ((a : Agent W) → (around.meanwhile a).manager.state_store ≡ a.manager.state_store)
        → (c : Config) (w : W) → is_empty c.socket_path ≡ false
        → (c.command ≡ service) ⊎ (c.command ≡ run)
        → (run_config duration_text host around join_path c w).code ≡ 0
        → (u : Agent W) × IsUnknown host u
          × (u.manager.state_store.file ≡ c.state_path)
          × ((run_config duration_text host around join_path c w).world ≡ u.world)
    unfolding subscribe new_app new
    run_config-IsUnknown laws reads keeps c w h k e =
        let a = started duration_text host around join_path c w in
        let runs : run_command duration_text host around c.command a
            ≡ service_mode duration_text host around a =
          command-service c.command k a in
        let whole =
          run_config-runs duration_text host around join_path c w h
          ∙ ap (λ r. exit_of r.0 r.1) runs in
        let r = service_mode duration_text host around a in
        let fine = exit_of-ok r.0 r.1 (sym (ap (λ q. q.code) whole) ∙ e) in
        let (u, ran, same) = service_inv a r.1 (ap (λ x. (x, r.1)) fine) in
        let kept =
          (run_service-HasStore a.agent.manager.state_store host around.meanwhile
              (λ b s. keeps b ∙ s)).at
            u.agent same in
        let store = ap (λ p. p.1.manager.state_store) (sym ran) ∙ kept in
        (
          r.1.agent,
          run_service-IsUnknown host reads laws around.meanwhile u.agent r.1.agent ran,
          ap (λ s. s.file) store,
          ap (λ q. q.world) whole ∙ exit_of-world r.0 r.1,
        )

    module _ (config_dir : Result String) where
      abbrev process : List String → List String → W → Exit W
      process args env w = main duration_text host around join_path config_dir args env w

      -- Over files that keep what was written to them and read the same again: after a process
      -- whose configuration is loaded with the command `service` or `run`, during which the other
      -- goroutines leave the store of the state file as it is, and which exits with code 0, a
      -- process whose configuration is loaded with the command `pin`, the same state path and no
      -- PIN of its own, exits with code 1: it prints that there is no session to the standard
      -- error, nothing to the standard output, and changes nothing.
      pub main-service :
          (laws : Laws host) (reads : ReadLaws host)
          → ((a : Agent W) → (around.meanwhile a).manager.state_store ≡ a.manager.state_store)
          → (args env args' env' : List String) (w : W) {c c' : Config}
          → load config_dir join_path args env ≡ ok c
          → (c.command ≡ service) ⊎ (c.command ≡ run)
          → load config_dir join_path args' env' ≡ ok c'
          → c'.command ≡ pin
          → c'.session_pin ≡ ""
          → c'.state_path ≡ c.state_path
          → (process args env w).code ≡ 0
          → let w' = (process args env w).world in process args' env' w' ≡ no_pin w'
      main-service laws reads keeps args env args' env' w {c} {c'} l k l' k' none_given same e =
          let (h, ran) = main-loaded duration_text host around join_path config_dir args env w l in
          let (u, gone, file, left) =
            run_config-IsUnknown laws reads keeps c w h k (sym (ap (λ q. q.code) ran) ∙ e) in
          let after : (process args env w).world ≡ u.world = ap (λ q. q.world) ran ∙ left in
          let (h', ran') =
            main-loaded duration_text host around join_path config_dir args' env' u.world l' in
          rw after (
            ran'
            ∙ pin-IsUnknown duration_text host around config_dir join_path c' u.world h' k'
                none_given
                (later-IsUnknown duration_text host around config_dir join_path u c'
                  (file ∙ sym same) gone))
