-- ===== src/Main/Runs.antt =====
-- What a process leaves, by the command that its application runs.
use Prim.Native.String.{[], ◌∷◌, ◌++◌ as concat}
use rook_servicechannel_agen.Common.{
  ℕ, suc, String, true, false, none, Bool-cases, inl, inr, List, [], ◌∷◌, ◌++◌, ◌≡◌, refl, sym, ap,
  ◌∙◌, added, added_self, arith,
}
use mathlib.Core.List.{append-nil}
use rook_servicechannel_agen.Text.{is_empty, trim_space}
use rook_servicechannel_agen.Action.{Result, ok, err, Action, of_result, ◌>>=◌, ◌>>◌}
use rook_servicechannel_agen.Host.{Host}
use rook_servicechannel_agen.Runtime.State.{Agent}
use rook_servicechannel_agen.Runtime.Manager.{subscribe, unsubscribe}
use rook_servicechannel_agen.App.Commands.{print_session_pin}
use rook_servicechannel_agen.Runtime.Calls.{resolve_pin}
use rook_servicechannel_agen.Config.{Config, pin, load, validate_config}
use rook_servicechannel_agen.App.{App, new_app, with_socket, with_agent, printed}
use rook_servicechannel_agen.App.Run.{Surroundings, run_command, run_app}
use rook_servicechannel_agen.App.Print.{write_all}
use rook_servicechannel_agen.Main.{Exit, exit_of, run_config, main}
use rook_servicechannel_agen.Config.Laws.{load-IsEffective}

empty-blank : (s : String) → is_empty s ≡ true → is_empty (trim_space s) ≡ true
unfolding trim_space
empty-blank [] e = refl
empty-blank (c ∷ s) e = ground arith

socket_path-set : (c : Config) → validate_config c ≡ none → is_empty c.socket_path ≡ false
unfolding validate_config
socket_path-set c v = elim (Bool-cases (is_empty c.socket_path)) [
  | inl e ↦ ground (arith, empty-blank c.socket_path e)
  | inr e ↦ e
]

module _ {W : Type 0} (duration_text : ℕ → String) (host : Host W) (around : Surroundings W)
    (join_path : List String → String) where
  -- The application whose handler is subscribed.
  abbrev pub started : Config → W → App W
  started cfg w = record {
    config = cfg;
    agent = (subscribe (new_app host join_path cfg w).agent).1;
    subscription = 0;
    output = [];
  }

  with_socket-set :
      (cfg : Config) → is_empty cfg.socket_path ≡ false → with_socket host join_path cfg ≡ cfg
  unfolding with_socket
  with_socket-set cfg h = rw h refl

  -- The end of the subscription prints nothing.
  unsubscribe-exit :
      (r : Result (Unit {0})) (id : ℕ) (a : App W)
      → let ended = (with_agent duration_text (unsubscribe id) >> of_result r) a in
        exit_of ended.0 ended.1 ≡ exit_of r a
  unfolding with_agent unsubscribe
  unsubscribe-exit (ok _) id a = rw (added_self a.agent.delivered, append-nil a.output) refl
  unsubscribe-exit (err e) id a = rw (added_self a.agent.delivered, append-nil a.output) refl

  -- A process leaves what its command leaves.
  pub run_config-runs :
      (cfg : Config) (w : W)
      → is_empty cfg.socket_path ≡ false
      → let r = run_command duration_text host around cfg.command (started cfg w) in
        run_config duration_text host around join_path cfg w ≡ exit_of r.0 r.1
  unfolding run_config run_app new_app subscribe with_agent
  run_config-runs cfg w h =
      let r = run_command duration_text host around cfg.command (started cfg w) in
      rw (with_socket-set cfg h) (unsubscribe-exit r.0 0 r.1)

  abbrev pub call_then_print :
      {A : Type 0} → Action (Agent W) A → (A → List String) → App W → Exit W
  call_then_print m texts a =
      let (r, b) = (with_agent duration_text m >>= λ x. write_all (texts x)) a in exit_of r b

  pub call_then_print_inv :
      {A : Type 0} (m : Action (Agent W) A) (texts : A → List String) (a : App W)
      (p : Result A × Agent W)
      → m a.agent ≡ p
      → (call_then_print m texts a).code ≡ 0
      → (x : A) × (u : Agent W) × (m a.agent ≡ (ok x, u))
        × (call_then_print m texts a ≡ record {
          code = 0;
          output =
              (a.output
                ++ printed duration_text a.subscription (added a.agent.delivered u.delivered))
              ++ texts x;
          errors = [];
          world = u.world;
        })
  unfolding with_agent
  call_then_print_inv m texts a (ok x, u) c e =
      (x, u, c, ap (λ p. call_then_print (λ _. p) texts a) c)
  call_then_print_inv m texts a (err x, u) c e =
      let failed : suc 0 ≡ 0 = sym (ap (λ p. (call_then_print (λ _. p) texts a).code) c) ∙ e in
      ground arith

  -- A call that calls no handler.
  abbrev pub IsQuiet : {A : Type 0} → Action (Agent W) A → Type 0
  IsQuiet {A} m = (a b : Agent W) (x : A) → m a ≡ (ok x, b) → b.delivered ≡ a.delivered

  -- A process with a command that makes such a call and prints what it gives.
  pub run_config-prints :
      {A : Type 0} (m : Action (Agent W) A) (texts : A → List String) (cfg : Config) (w : W)
      → is_empty cfg.socket_path ≡ false
      → run_command duration_text host around cfg.command (started cfg w)
        ≡ (with_agent duration_text m >>= (λ x. write_all (texts x))) (started cfg w)
      → IsQuiet m
      → (run_config duration_text host around join_path cfg w).code ≡ 0
      → (x : A) × (u : Agent W) × (m (started cfg w).agent ≡ (ok x, u))
        × (run_config duration_text host around join_path cfg w
            ≡ record { code = 0; output = texts x; errors = []; world = u.world })
  unfolding subscribe new_app
  run_config-prints m texts cfg w h runs quiet e =
      let a = started cfg w in
      let whole = run_config-runs cfg w h ∙ ap (λ r. exit_of r.0 r.1) runs in
      let (x, u, c, left) =
        call_then_print_inv m texts a (m a.agent) refl (sym (ap (λ q. q.code) whole) ∙ e) in
      let silent = ap (added a.agent.delivered) (quiet a.agent u x c) in
      (x, u, c, whole ∙ left ∙ rw silent refl)

  abbrev line : String → List String
  line s = concat s "\n" ∷ []

  -- A process with the command `pin` leaves what the stored PIN makes of it.
  pub run_config-pin :
      (c : Config) (w : W) {p : Result String × Agent W}
      → is_empty c.socket_path ≡ false
      → c.command ≡ pin
      → c.session_pin ≡ ""
      → resolve_pin host "" (started c w).agent ≡ p
      → run_config duration_text host around join_path c w
        ≡ call_then_print (λ _. p) line (started c w)
  unfolding run_command print_session_pin subscribe new_app with_agent resolve_pin
  run_config-pin c w h k none_given known =
      let a = started c w in
      let given = ap (λ p. resolve_pin host p a.agent) none_given ∙ known in
      let runs = ap (λ x. run_command duration_text host around x a) k in
      run_config-runs c w h
      ∙ ap (λ r. exit_of r.0 r.1) runs
      ∙ ap (λ r. call_then_print (λ _. r) line a) given

  module _ (config_dir : Result String) where
    -- A process whose configuration is loaded.
    pub main-loaded :
        (args env : List String) (w : W) {c : Config}
        → load config_dir join_path args env ≡ ok c
        → (is_empty c.socket_path ≡ false)
          × (main duration_text host around join_path config_dir args env w
              ≡ run_config duration_text host around join_path c w)
    unfolding main
    main-loaded args env w {c} e =
        (socket_path-set c (load-IsEffective config_dir join_path args env e).0, rw e refl)
