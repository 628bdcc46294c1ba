-- ===== src/Tests/Main.antt =====
-- Processes on the small host.
use Prim.Native.String.{◌++◌ as concat}
use rook_servicechannel_agen.Common.{ℕ, String, false, none, [], ◌∷◌, ◌≡◌, refl, ap, inl, ◌∙◌}
use rook_servicechannel_agen.Text.{trim_space, is_space}
use rook_servicechannel_agen.Errors.{text, decimal, is}
use rook_servicechannel_agen.Action.{ok, err}
use rook_servicechannel_agen.Json.{decode_struct}
use rook_servicechannel_agen.Backend.Contract.{
  SupportSession, validate_session, validate_state, validate_pin, path, decode_response,
  encode_session, decode_session,
}
use rook_servicechannel_agen.Backend.Client.{
  new_client, begin_session_call, end_session_call, perform_json, new_request, read_response,
  unmarshal,
}
use rook_servicechannel_agen.Session.Store.{
  current_boot_id, save, load, clear, read_state, decode_state, encode_state,
}
use rook_servicechannel_agen.Network.Wifi.{wifi_status}
use rook_servicechannel_agen.Network.Vpn.{vpn_status}
use rook_servicechannel_agen.Runtime.State.{new}
use rook_servicechannel_agen.Runtime.Manager.{
  snapshot_of, stop_heartbeat_loop, start_heartbeat_loop, subscribe, unsubscribe, set_wifi_state,
  set_vpn_state, sync_wifi_status, sync_vpn_state, sync_wifi_state,
}
use rook_servicechannel_agen.Runtime.Calls
use rook_servicechannel_agen.Runtime.Calls.{
  begin_session, save_session, resolve_pin, end_session_for_pin, stop_session, run_service,
  resume_service, shut_down_service, recover_after_boot, recover_state, snapshot,
}
use rook_servicechannel_agen.Config
use rook_servicechannel_agen.Config.{
  Config, config, start, stop, pin, service, validate_config, summary,
}
use rook_servicechannel_agen.Config.Laws.{arguments, load-arguments}
use rook_servicechannel_agen.App.{new_app, with_socket, with_agent}
use rook_servicechannel_agen.App.Print.{print_session}
use rook_servicechannel_agen.App.Commands
use rook_servicechannel_agen.App.Commands.{start_session}
use rook_servicechannel_agen.App.Run.{Surroundings, run_command, run_app}
use rook_servicechannel_agen.App.Service.{
  run_service_mode, prepare_service, sync_network_state, serve, first_error,
}
use rook_servicechannel_agen.App.Interactive.{Ending, ends}
use rook_servicechannel_agen.Main.{Exit, run_config, main}
use rook_servicechannel_agen.Main.Sessions.{pin_line, main-start}
use rook_servicechannel_agen.Main.Stops.{no_pin, main-stop}
use rook_servicechannel_agen.Main.Service.{main-service}
use rook_servicechannel_agen.Main.Summary.{main-config}
use rook_servicechannel_agen.Main.Runs.{main-loaded}
use rook_servicechannel_agen.Tests.Toy.{Disk, toy, toy-Laws, toy-ReadLaws}
use rook_servicechannel_agen.Tests.Agents.{boot_disk, resumed}
use rook_servicechannel_agen.Tests.Config.{config_dir, join_path, printing}

abbrev around : Surroundings Disk
around = record {
  meanwhile = λ a. a;
  server_first = false;
  served = ok tt;
  dialed = err (text "no socket");
  script = ends (Ending.client_error (text "EOF"));
}

abbrev duration_text : ℕ → String
duration_text n = decimal n

abbrev process : Config → Disk → Exit Disk
process c = main duration_text toy around join_path config_dir (arguments c) []

abbrev cfg : Config.Command → Config
cfg c = record printing {
  print_config = false;
  state_path = "/var/lib/rook/session.json";
  socket_path = "/var/lib/rook/agent.sock";
  command = c;
}

valid : (c : Config.Command) → validate_config (cfg c) ≡ none
unfolding validate_config trim_space is_space
valid c = refl

loads_start : Config.load config_dir join_path (arguments (cfg start)) [] ≡ ok (cfg start)
loads_start = load-arguments config_dir join_path (cfg start) [] (valid start) refl refl refl

loads_stop : Config.load config_dir join_path (arguments (cfg stop)) [] ≡ ok (cfg stop)
loads_stop = load-arguments config_dir join_path (cfg stop) [] (valid stop) refl refl refl

loads_pin : Config.load config_dir join_path (arguments (cfg pin)) [] ≡ ok (cfg pin)
loads_pin = load-arguments config_dir join_path (cfg pin) [] (valid pin) refl refl refl

main-config_example : process (cfg config) (boot_disk "b1") ≡ record {
  code = 0;
  output = concat (summary (cfg config)) "\n" ∷ [];
  errors = [];
  world = boot_disk "b1";
}
main-config_example =
    main-config duration_text toy around config_dir join_path (cfg config) [] (boot_disk "b1") refl
      (valid config) refl refl

ended : (run_config duration_text toy around join_path (cfg stop) (resumed "b1").world).code ≡ 0
unfolding run_config run_app new_app with_socket with_agent subscribe unsubscribe run_command
    Commands.stop stop_session resolve_pin stop_heartbeat_loop end_session_for_pin end_session_call
    perform_json new_request read_response new_client path validate_pin load clear read_state
    unmarshal decode_state encode_state decode_struct encode_session decode_session validate_session
    validate_state trim_space is_space new is
ended = refl

starts : (run_config duration_text toy around join_path (cfg start) (boot_disk "b1\n")).code ≡ 0
unfolding run_config run_app new_app with_socket with_agent subscribe unsubscribe run_command
    start_session begin_session new new_client trim_space is_space begin_session_call perform_json
    new_request path read_response unmarshal decode_response decode_struct encode_session
    decode_session validate_session validate_state save_session Calls.current_boot_id
    current_boot_id save print_session
starts = refl

ran :
    (c : Config.Command) (w : Disk)
    → Config.load config_dir join_path (arguments (cfg c)) [] ≡ ok (cfg c)
    → process (cfg c) w ≡ run_config duration_text toy around join_path (cfg c) w
ran c w loads =
    (main-loaded duration_text toy around join_path config_dir (arguments (cfg c)) [] w loads).1

main-start_example :
    let first = process (cfg start) (boot_disk "b1\n") in
    (s : SupportSession) × (validate_session s ≡ none)
    × (first.output ≡ print_session s)
    × (process (cfg pin) first.world ≡ pin_line s first.world)
main-start_example =
    main-start duration_text toy around config_dir join_path toy-Laws (arguments (cfg start)) []
      (arguments (cfg pin)) [] (boot_disk "b1\n") loads_start refl loads_pin refl refl refl
      (ap (λ q. q.code) (ran start (boot_disk "b1\n") loads_start) ∙ starts)

main-stop_example :
    let w' = (process (cfg stop) (resumed "b1").world).world in process (cfg pin) w' ≡ no_pin w'
main-stop_example =
    main-stop duration_text toy around config_dir join_path toy-Laws (arguments (cfg stop)) []
      (arguments (cfg pin)) [] (resumed "b1").world loads_stop refl loads_pin refl refl refl
      (ap (λ q. q.code) (ran stop (resumed "b1").world loads_stop) ∙ ended)

loads_service : Config.load config_dir join_path (arguments (cfg service)) [] ≡ ok (cfg service)
loads_service = load-arguments config_dir join_path (cfg service) [] (valid service) refl refl refl

serves : (run_config duration_text toy around join_path (cfg service) (resumed "b1").world).code ≡ 0
unfolding run_config run_app new_app with_socket with_agent subscribe unsubscribe run_command
    run_service_mode prepare_service sync_network_state serve first_error run_service resume_service
    shut_down_service stop_heartbeat_loop start_heartbeat_loop end_session_for_pin end_session_call
    perform_json new_request read_response new_client path validate_pin load clear read_state
    unmarshal decode_state encode_state decode_struct encode_session decode_session validate_session
    validate_state trim_space is_space new is recover_after_boot recover_state current_boot_id
    snapshot Calls.current_boot_id set_wifi_state set_vpn_state sync_wifi_status sync_vpn_state
    sync_wifi_state snapshot_of wifi_status vpn_status
serves = refl

main-service_example :
    let w' = (process (cfg service) (resumed "b1").world).world in process (cfg pin) w' ≡ no_pin w'
main-service_example =
    main-service duration_text toy around join_path config_dir toy-Laws toy-ReadLaws (λ a. refl)
      (arguments (cfg service)) [] (arguments (cfg pin)) [] (resumed "b1").world loads_service
      (inl refl) loads_pin refl refl refl
      (ap (λ q. q.code) (ran service (resumed "b1").world loads_service) ∙ serves)
