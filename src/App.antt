-- ===== src/App.antt =====
-- internal/app/app.go: the state of the application, and what it prints.
pub mod Print
pub mod Commands
pub mod Service
pub mod Requests
pub mod Interactive
pub mod Run
pub mod Loop
pub mod Events
pub mod Served
use Prim.Native.String.{◌++◌ as concat}
use rook_servicechannel_agen.Common.{
  ℕ, String, Bool, ◌&&◌, not, List, [], ◌∷◌, ◌++◌, ◌==◌, if◌then◌else◌, added,
}
use rook_servicechannel_agen.Text.{is_empty}
use rook_servicechannel_agen.Errors.{message}
use rook_servicechannel_agen.Action.{Result, ok, Action}
use rook_servicechannel_agen.Host.{Host}
use rook_servicechannel_agen.Config.{Config}
use rook_servicechannel_agen.Runtime.State.{
  Event, heartbeat_started, heartbeat_stopped, heartbeat_error, heartbeat_fatal, Agent, new,
}

-- `App` with the runtime manager and its surroundings, the id under which the application's handler
-- is subscribed, and the texts that were written to the standard output. The WiFi and VPN managers
-- and the cleaner have no state.
pub record App (W : Type 0) : Type 0 where
  pub config : Config
  pub agent : Agent W
  pub subscription : ℕ
  pub output : List String

-- What `handleRuntimeEvent` prints; the other kinds of events are logged. A duration is printed by
-- Go's package time.
unfoldable pub event_text : (ℕ → String) → Event → List String
unfolding message
event_text duration_text (heartbeat_started pin interval) =
    concat "automatic heartbeat started (" (concat (duration_text interval) ")\n") ∷ []
event_text duration_text (heartbeat_fatal pin e) =
    concat "automatic heartbeat stopped: " (concat (message e) "\n") ∷ []
event_text duration_text (heartbeat_error pin e) =
    concat "automatic heartbeat error: " (concat (message e) "\n") ∷ []
event_text duration_text heartbeat_stopped = "automatic heartbeat stopped\n" ∷ []
event_text duration_text _ = []

-- What the calls of the application's handler print.
abbrev pub printed : (ℕ → String) → ℕ → List (ℕ × Event) → List String
printed duration_text id [] = []
printed duration_text id ((j, e) ∷ calls) =
    let rest = printed duration_text id calls in
    if j == id then event_text duration_text e ++ rest else rest

module _ {W : Type 0} where
  abbrev pub write : String → Action (App W) (Unit {0})
  write s a = (ok tt, record a { output = a.output ++ s ∷ [] })

  -- `fmt.Fprintln`
  abbrev pub write_line : String → Action (App W) (Unit {0})
  write_line s = write (concat s "\n")

  -- A call of the runtime manager, with the calls of the application's handler that it makes.
  unfoldable pub with_agent : {A : Type 0} → (ℕ → String) → Action (Agent W) A → Action (App W) A
  with_agent duration_text m a =
      let (r, agent) = m a.agent in
      (
        r,
        record a {
          agent = agent;
          output =
              a.output
              ++ printed duration_text a.subscription (added a.agent.delivered agent.delivered);
        },
      )

-- `New`
module _ {W : Type 0} (host : Host W) (join_path : List String → String) where
  unfoldable pub with_socket : Config → Config
  with_socket cfg =
      if is_empty cfg.socket_path && not (is_empty cfg.state_path)
      then record cfg { socket_path = join_path (host.dir cfg.state_path ∷ "agent.sock" ∷ []) }
      else cfg

  unfoldable pub new_app : Config → W → App W
  unfolding new
  new_app cfg w = record {
    config = with_socket cfg;
    agent = record {
      manager = new host cfg.backend_url cfg.state_path;
      world = w;
      loops = [];
      next_loop = 0;
      delivered = [];
    };
    subscription = 0;
    output = [];
  }
