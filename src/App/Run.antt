-- ===== src/App/Run.antt =====
-- internal/app/app.go: `Run`, the command of the configuration.
use Prim.Native.String.{◌++◌ as concat}
use rook_servicechannel_agen.Common.{ℕ, String, Bool}
use rook_servicechannel_agen.Text.{is_empty, quote}
use rook_servicechannel_agen.Errors.{text}
use rook_servicechannel_agen.Action.{Result, Action, fail, of_result, try, ◌>>=◌, ◌>>◌}
use rook_servicechannel_agen.Common.{if◌then◌else◌}
use rook_servicechannel_agen.Host.{Host}
use rook_servicechannel_agen.Runtime.State.{Agent}
use rook_servicechannel_agen.Runtime.Manager.{subscribe, unsubscribe}
use rook_servicechannel_agen.Config.{
  Command, run, service, interactive, config, start, status, pin, ping, stop, scan_wifi,
  wifi_status, connect_wifi, disconnect_wifi, vpn_status, vpn_start, vpn_stop, cleanup, other,
  summary,
}
use rook_servicechannel_agen.App.{App, write_line}
use rook_servicechannel_agen.App.Commands
use rook_servicechannel_agen.App.Commands.{
  call, start_session, print_session_status, print_session_pin, print_wifi_status, print_vpn_status,
}
use rook_servicechannel_agen.App.Service.{run_service_mode}
use rook_servicechannel_agen.App.Requests.{Connection}
use rook_servicechannel_agen.App.Interactive.{Script, run_interactive}

-- What the two long modes meet with: the other goroutines of the service and the result of its server,
-- and the connection and the input of the interactive mode.
pub record Surroundings (W : Type 0) : Type 0 where
  pub meanwhile : Agent W → Agent W
  pub server_first : Bool
  pub served : Result (Unit {0})
  pub dialed : Result (Connection W)
  pub script : Script

module _ {W : Type 0} (duration_text : ℕ → String) (host : Host W) (around : Surroundings W) where
  abbrev pub service_mode : Action (App W) (Unit {0})
  service_mode =
      run_service_mode duration_text host around.meanwhile around.server_first around.served

  -- The switch of `Run`; the empty command is the one of the service.
  unfoldable pub run_command : Command → Action (App W) (Unit {0})
  unfolding run_service_mode run_interactive start_session print_session_status print_session_pin
      print_wifi_status print_vpn_status summary
  run_command run a = service_mode a
  run_command service a = service_mode a
  run_command interactive a = run_interactive around.dialed around.script a
  run_command config a = write_line (summary a.config) a
  run_command start a = start_session duration_text host a
  run_command status a = print_session_status duration_text host a.config.session_pin a
  run_command pin a = print_session_pin duration_text host a.config.session_pin a
  run_command ping a = Commands.ping duration_text host a.config.session_pin a
  run_command stop a = Commands.stop duration_text host a.config.session_pin a
  run_command scan_wifi a = Commands.scan_wifi duration_text host a
  run_command wifi_status a = print_wifi_status duration_text host a
  run_command connect_wifi a =
      Commands.connect_wifi duration_text host a.config.wifi_ssid a.config.wifi_password a
  run_command disconnect_wifi a = Commands.disconnect_wifi duration_text host a
  run_command vpn_status a = print_vpn_status duration_text host a
  run_command vpn_start a = Commands.vpn_start duration_text host a
  run_command vpn_stop a = Commands.vpn_stop duration_text host a
  run_command cleanup a = Commands.cleanup duration_text host a
  run_command (other s) a =
      if is_empty s then service_mode a else fail (text (concat "unsupported command " (quote s))) a

  -- `Run`
  unfoldable pub run_app : Action (App W) (Unit {0})
  unfolding run_command
  run_app = do
    id ← call duration_text host subscribe
    λ a.
        (do
          ran ← try (run_command a.config.command)
          call duration_text host (unsubscribe id)
          of_result ran)
          (record a { subscription = id })
