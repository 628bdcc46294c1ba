-- ===== src/Tests/Stopping.antt =====
-- The end of a session from the interactive mode of a small application.
use rook_servicechannel_agen.Common.{false, [], ◌∷◌, ◌++◌, ◌≡◌, refl}
use rook_servicechannel_agen.Text.{is_empty, is_space, trim_space, fields_func, lowers_to}
use rook_servicechannel_agen.Errors.{text, is}
use rook_servicechannel_agen.Action.{ok, err}
use rook_servicechannel_agen.Json.{decode_struct}
use rook_servicechannel_agen.Backend.Contract.{
  validate_session, validate_state, validate_pin, path, encode_session, decode_session,
}
use rook_servicechannel_agen.Backend.Client.{
  new_client, end_session_call, perform_json, new_request, read_response, unmarshal,
}
use rook_servicechannel_agen.Session.Store.{load, clear, read_state, decode_state, encode_state}
use rook_servicechannel_agen.Runtime.State.{Agent, new}
use rook_servicechannel_agen.Runtime.Manager.{stop_heartbeat_loop}
use rook_servicechannel_agen.Runtime.Calls.{
  snapshot, stop_session, resolve_pin, end_session_for_pin,
}
use rook_servicechannel_agen.Runtime.Heartbeat.{IsValid}
use rook_servicechannel_agen.Runtime.Heartbeat.Steps.{live}
use rook_servicechannel_agen.Ipc.Contract.{validate_request, action_name}
use rook_servicechannel_agen.Ipc.Reply.{success_response}
use rook_servicechannel_agen.Ipc.Server.{handle_request, dispatch, handle_stop_support}
use rook_servicechannel_agen.Ipc.Client.{outcome}
use rook_servicechannel_agen.App.{App}
use rook_servicechannel_agen.App.Requests.{demand, handle_word, handle_interactive_command}
use rook_servicechannel_agen.App.Served.{served}
use rook_servicechannel_agen.App.Served.Stop.{handle_interactive_command-stop}
use rook_servicechannel_agen.Tests.Toy.{Disk, toy, toy-Laws}
use rook_servicechannel_agen.Tests.Agents.{resumed}
use rook_servicechannel_agen.Tests.App.{app_at}

abbrev app : App (Agent Disk)
app = app_at (resumed "b1")

abbrev ended : App (Agent Disk)
ended = (handle_interactive_command (served toy "2") "stop" app).1

named : is_empty (trim_space "2") ≡ false
unfolding trim_space is_space
named = refl

valid : IsValid app.agent.world
valid = record { reached = tt; fresh = tt }

stops : handle_interactive_command (served toy "2") "stop" app ≡ (ok tt, ended)
unfolding handle_interactive_command handle_word demand outcome lowers_to is_space fields_func
    handle_request validate_request dispatch action_name handle_stop_support success_response
    snapshot stop_session resolve_pin stop_heartbeat_loop end_session_for_pin end_session_call
    perform_json new_request read_response new_client path validate_pin load clear read_state
    unmarshal decode_state encode_state decode_struct encode_session decode_session validate_session
    validate_state trim_space new is
stops = refl

handle_interactive_command-stop_example :
    (resolve_pin toy "" ended.agent.world ≡ (
      err (text "no active session state found; use start first or provide --pin"),
      ended.agent.world,
    ))
    × (live ended.agent.world.loops ≡ 0)
    × (ended.output ≡ app.output ++ "session ended\n" ∷ [])
handle_interactive_command-stop_example =
    handle_interactive_command-stop toy "2" toy-Laws app ended named valid stops
