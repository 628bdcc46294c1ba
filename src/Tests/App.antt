-- ===== src/Tests/App.antt =====
-- The interactive mode of a small application, with a small service at the other end.
use rook_servicechannel_agen.Common.{true, false, none, List, [], ◌∷◌, ◌++◌, ◌≡◌, refl, All}
use rook_servicechannel_agen.Text.{is_empty, is_space, trim_space, fields_func, lowers_to}
use rook_servicechannel_agen.Errors.{Error, text, is}
use rook_servicechannel_agen.Action.{ok, err}
use rook_servicechannel_agen.Json.{decode_struct, decode_fields, decode_string, names_field}
use rook_servicechannel_agen.Backend.Contract.{
  SupportSession, validate_session, validate_state, path, decode_response, encode_session,
  decode_session,
}
use rook_servicechannel_agen.Backend.Client.{
  new_client, begin_session_call, perform_json, new_request, read_response, unmarshal,
}
use rook_servicechannel_agen.Session.Store.{
  current_boot_id, save, load, read_state, decode_state, encode_state,
}
use rook_servicechannel_agen.Network.Nmcli.{disconnected}
use rook_servicechannel_agen.Runtime.State
use rook_servicechannel_agen.Runtime.State.{Agent, Manager, new}
use rook_servicechannel_agen.Runtime.Manager.{
  start_heartbeat_loop, stop_heartbeat_loop, snapshot_of, derive_support_state,
}
use rook_servicechannel_agen.Runtime.Calls
use rook_servicechannel_agen.Runtime.Calls.{begin_session, save_session, snapshot, resolve_pin}
use rook_servicechannel_agen.Runtime.Heartbeat.{IsValid}
use rook_servicechannel_agen.Runtime.Heartbeat.Steps.{live}
use rook_servicechannel_agen.Ipc.Contract.{
  Action, Request, Event, validate_request, new_status_payload, new_session_payload, action_name,
}
use rook_servicechannel_agen.Ipc.Reply.{success_response}
use rook_servicechannel_agen.Ipc.Wire.{encode_status, encode_payload, encode_networks}
use rook_servicechannel_agen.Ipc.Wire
use rook_servicechannel_agen.Ipc.Server.{
  handle_request, handle_runtime_event, dispatch, handle_start_support,
}
use rook_servicechannel_agen.Ipc.Client.{outcome}
use rook_servicechannel_agen.Ipc.Client.Incoming.{decode_bool}
use rook_servicechannel_agen.Ipc.Client.Payloads.{decode_status, decode_networks, no_status}
use rook_servicechannel_agen.Config.{Config, interactive}
use rook_servicechannel_agen.App.{App}
use rook_servicechannel_agen.App.Print.{setting}
use rook_servicechannel_agen.App.Requests.{
  Connection, request, ask_status, handle_word, handle_interactive_command,
}
use rook_servicechannel_agen.App.Interactive.{
  run_interactive, Input, Ending, Script, ends, then_next, take_input, interactive_loop,
}
use rook_servicechannel_agen.App.Loop.{IsEnd, run_interactive-IsEnd}
use rook_servicechannel_agen.App.Events.{IsShown}
use rook_servicechannel_agen.App.Events.Server.{handle_request-IsShown}
use rook_servicechannel_agen.App.Served.{served, handle_interactive_command-start}
use rook_servicechannel_agen.Tests.Toy.{Disk, toy, toy-Laws}
use rook_servicechannel_agen.Tests.Agents.{fresh_agent}

abbrev manager : Manager (Agent Disk)
manager = record {
  backend_url = "";
  state_store = record { file = "" };
  boot_id_func = none;
  heartbeat_interval = 10000;
  heartbeat_cancel = none;
  wifi_state = disconnected;
  vpn_state = disconnected;
  wifi_networks = [];
  any_wifi_active = false;
  support_wifi_active = false;
  active_wifi_connection = "";
  subscribers = [];
  next_subscriber_id = 0;
}

abbrev cfg : Config
cfg = record {
  backend_url = "http://console";
  console_id = "";
  log_level = "info";
  print_config = false;
  interactive_mode = true;
  state_path = "/var/lib/rook/session.json";
  socket_path = "/var/lib/rook/agent.sock";
  session_pin = "";
  wifi_ssid = "";
  wifi_password = "";
  command = interactive;
}

abbrev pub app_at : Agent Disk → App (Agent Disk)
app_at agent = record {
  config = cfg;
  agent = record { manager = manager; world = agent; loops = []; next_loop = 0; delivered = [] };
  subscription = 0;
  output = [];
}

abbrev app : App (Agent Disk)
app = app_at fresh_agent

abbrev connection : Connection (Agent Disk)
connection = served toy "1"

abbrev lost : Error
lost = text "read ipc message: EOF"

abbrev script : Script
script = then_next (Input.line "dance") (ends (Ending.client_error lost))

loop_fails :
    interactive_loop connection script app ≡ (err lost, (interactive_loop connection script app).1)
unfolding interactive_loop take_input handle_interactive_command handle_word trim_space is_space
    fields_func lowers_to is
loop_fails = refl

run_interactive-IsEnd_example :
    IsEnd (ok connection) script app (run_interactive (ok connection) script app)
run_interactive-IsEnd_example = run_interactive-IsEnd (ok connection) script app

abbrev start_request : Request
start_request = record { id = "7"; action = Action.start_support; payload = "" }

handle_request-IsShown_example :
    All (IsShown toy.shape_error) (handle_request toy start_request fresh_agent).0.events
    × ((e : State.Event)
        → (events : List Event) × ((handle_runtime_event toy e fresh_agent).0 ≡ ok events)
          × All (IsShown toy.shape_error) events)
handle_request-IsShown_example =
    handle_request-IsShown toy toy.shape_error start_request fresh_agent

named : is_empty (trim_space "1") ≡ false
unfolding trim_space is_space
named = refl

valid : IsValid fresh_agent
valid = record { reached = tt; fresh = tt }

abbrev started : App (Agent Disk)
started = (handle_interactive_command connection "start" app).1

starts : handle_interactive_command connection "start" app ≡ (ok tt, started)
unfolding handle_interactive_command handle_word ask_status request outcome decode_status no_status
    lowers_to is_space fields_func handle_request validate_request dispatch action_name decode_bool
    decode_fields decode_networks encode_status encode_payload names_field decode_string
    new_status_payload new_session_payload derive_support_state snapshot_of Wire.encode_session
    handle_start_support success_response snapshot start_heartbeat_loop stop_heartbeat_loop
    begin_session new new_client trim_space begin_session_call perform_json new_request path
    read_response unmarshal decode_response decode_struct encode_session decode_session
    validate_session validate_state save_session Calls.current_boot_id current_boot_id save load
    read_state encode_state decode_state is
starts = refl

handle_interactive_command-start_example :
    (s : SupportSession) × (validate_session s ≡ none)
    × (resolve_pin toy "" started.agent.world ≡ (ok s.pin, started.agent.world))
    × (live started.agent.world.loops ≡ 1)
    × (started.output
        ≡ app.output
          ++ setting "support_active" "true"
            ∷ setting "support_state" "servicemode"
            ∷ setting "status" s.status
            ∷ setting "pin" s.pin
            ∷ setting "ip_address" s.ip_address
            ∷ [])
handle_interactive_command-start_example =
    handle_interactive_command-start toy "1" toy-Laws app started named valid starts
