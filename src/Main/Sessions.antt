-- ===== src/Main/Sessions.antt =====
-- A session over several processes: what one process starts, or stops, the next one knows.
use Prim.Native.String.{[], ◌∷◌, ◌++◌ as concat}
use rook_servicechannel_agen.Common.{
  ℕ, String, false, none, List, [], ◌∷◌, ◌≡◌, refl, sym, ap, ◌∙◌, arith,
}
use rook_servicechannel_agen.Text.{is_empty}
use rook_servicechannel_agen.Action.{Result, ok}
use rook_servicechannel_agen.Host.{Host}
use rook_servicechannel_agen.Session.Files.{Laws}
use rook_servicechannel_agen.Backend.Contract.{SupportSession, validate_session}
use rook_servicechannel_agen.Runtime.State.{Agent, new}
use rook_servicechannel_agen.Runtime.Manager.{subscribe}
use rook_servicechannel_agen.Runtime.Calls.{begin_session, save_session, current_boot_id}
use rook_servicechannel_agen.Runtime.Sessions.{
  Holds, begin_session-Holds, begin_session-current, resolve_pin-Holds,
}
use rook_servicechannel_agen.Config.{Config, start, pin, load}
use rook_servicechannel_agen.App.{new_app, with_agent}
use rook_servicechannel_agen.App.Print.{print_session}
use rook_servicechannel_agen.App.Run.{Surroundings, run_command}
use rook_servicechannel_agen.App.Commands.{start_session}
use rook_servicechannel_agen.Main.{Exit, run_config, main}
use rook_servicechannel_agen.Main.Runs.{main-loaded, started, run_config-pin, run_config-prints}

-- What a process with the command `pin` leaves that finds a session.
abbrev pub pin_line : {W : Type 0} → SupportSession → W → Exit W
pin_line s w = record { code = 0; output = concat s.pin "\n" ∷ []; errors = []; world = w }

module _ {W : Type 0} (host : Host W) where
  begin_session-IsQuiet :
      (a b : Agent W) (x : SupportSession)
      → begin_session host a ≡ (ok x, b)
      → b.delivered ≡ a.delivered
  unfolding begin_session save_session current_boot_id
  begin_session-IsQuiet a b x e = ground arith

  begin_session-manager :
      (a b : Agent W) (x : SupportSession)
      → begin_session host a ≡ (ok x, b)
      → b.manager ≡ a.manager
  unfolding begin_session save_session current_boot_id
  begin_session-manager a b x e = ground arith

module _ {W : Type 0} (duration_text : ℕ → String) (host : Host W) (around : Surroundings W)
    (config_dir : Result String) (join_path : List String → String) where
  abbrev process : List String → List String → W → Exit W
  process args env w = main duration_text host around join_path config_dir args env w

  module _ (laws : Laws host) where
    start_inv :
        (c : Config) (w : W)
        → is_empty c.socket_path ≡ false
        → c.command ≡ start
        → (run_config duration_text host around join_path c w).code ≡ 0
        → (s : SupportSession) × (u : Agent W) × (begin_session host
              (started duration_text host around join_path c w).agent
            ≡ (ok s, u))
          × (run_config duration_text host around join_path c w
              ≡ record { code = 0; output = print_session s; errors = []; world = u.world })
    unfolding run_command start_session
    start_inv c w h k e =
        run_config-prints duration_text host around join_path (begin_session host) print_session c w
          h (rw k refl) (begin_session-IsQuiet host) e

    -- The session that one process holds, seen by a later one with the same state file.
    later-Holds :
        (u : Agent W) (c : Config) {s : SupportSession}
        → u.manager.state_store.file ≡ c.state_path
        → Holds host u s
        → Holds host (started duration_text host around join_path c u.world).agent s
    unfolding new_app new subscribe
    later-Holds u c same h = record { boot_id = h.boot_id; loaded = rw same at h.loaded }

    pin-Holds :
        (c : Config) (w : W) (s : SupportSession)
        → is_empty c.socket_path ≡ false
        → c.command ≡ pin
        → c.session_pin ≡ ""
        → Holds host (started duration_text host around join_path c w).agent s
        → run_config duration_text host around join_path c w ≡ pin_line s w
    unfolding with_agent subscribe new_app
    pin-Holds c w s h k none_given held =
        run_config-pin duration_text host around join_path c w h k none_given
          (resolve_pin-Holds host (started duration_text host around join_path c w).agent held)

    -- A process whose configuration is loaded with the command `start`, and which exits with code 0,
    -- has printed a session that is valid. A process after it, whose configuration is loaded with
    -- the command `pin`, the same state path and no PIN of its own, exits with code 0, prints the
    -- PIN of that session, and changes nothing.
    pub main-start :
        (args env args' env' : List String) (w : W) {c c' : Config}
        → load config_dir join_path args env ≡ ok c
        → c.command ≡ start
        → load config_dir join_path args' env' ≡ ok c'
        → c'.command ≡ pin
        → c'.session_pin ≡ ""
        → c'.state_path ≡ c.state_path
        → (process args env w).code ≡ 0
        → let first = process args env w in
          (s : SupportSession) × (validate_session s ≡ none)
          × (first.output ≡ print_session s)
          × (process args' env' first.world ≡ pin_line s first.world)
    unfolding subscribe new_app new
    main-start args env args' env' w {c} {c'} l k l' k' none_given same e =
        let (h, ran) = main-loaded duration_text host around join_path config_dir args env w l in
        let (s, u, began, left) = start_inv c w h k (sym (ap (λ q. q.code) ran) ∙ e) in
        let held = begin_session-Holds host laws _ u began in
        let kept = begin_session-manager host _ u s began in
        let whole = ran ∙ left in
        let after : (process args env w).world ≡ u.world = ap (λ q. q.world) whole in
        let (h', ran') =
          main-loaded duration_text host around join_path config_dir args' env' u.world l' in
        let path : u.manager.state_store.file ≡ c'.state_path =
          ap (λ m. m.state_store.file) kept ∙ sym same in
        (
          s,
          (begin_session-current host laws _ u began).0,
          ap (λ q. q.output) whole,
          rw after (ran' ∙ pin-Holds c' u.world s h' k' none_given (later-Holds u c' path held)),
        )
