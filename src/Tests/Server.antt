-- ===== src/Tests/Server.antt =====
-- Requests to a small agent.
use rook_servicechannel_agen.Common.{true, ◌≡◌, refl}
use rook_servicechannel_agen.Text.{trim_space}
use rook_servicechannel_agen.Errors.{is}
use rook_servicechannel_agen.Json.{decode_struct}
use rook_servicechannel_agen.Backend.Contract.{
  validate_session, validate_state, validate_pin, path, decode_response, encode_session,
  decode_session,
}
use rook_servicechannel_agen.Backend.Client.{
  new_client, begin_session_call, end_session_call, perform_json, new_request, read_response,
  unmarshal,
}
use rook_servicechannel_agen.Session.Store.{
  current_boot_id, save, load, clear, read_state, decode_state, encode_state,
}
use rook_servicechannel_agen.Runtime.State.{Agent, new}
use rook_servicechannel_agen.Runtime.Calls
use rook_servicechannel_agen.Runtime.Manager.{start_heartbeat_loop, stop_heartbeat_loop}
use rook_servicechannel_agen.Runtime.Calls.{
  begin_session, save_session, snapshot, resolve_pin, stop_session, end_session_for_pin,
}
use rook_servicechannel_agen.Runtime.Heartbeat.{IsValid}
use rook_servicechannel_agen.Ipc.Contract.{Action, Request}
use rook_servicechannel_agen.Ipc.Server.{handle_request, handle_start_support, handle_stop_support}
use rook_servicechannel_agen.Ipc.Reply.{Reply, success_response}
use rook_servicechannel_agen.Ipc.Server.Replies.{Answers, handle_request-Answers}
use rook_servicechannel_agen.Tests.Toy.{Disk, toy}
use rook_servicechannel_agen.Tests.Agents.{fresh_agent, resumed}

abbrev start_request : Request
start_request = record { id = "7"; action = Action.start_support; payload = "" }

abbrev stop_request : Request
stop_request = record { id = "8"; action = Action.stop_support; payload = "" }

handle_request-Answers_example :
    Answers start_request (handle_request toy start_request fresh_agent).0.response
handle_request-Answers_example = handle_request-Answers toy start_request fresh_agent

fresh_agent-IsValid : IsValid fresh_agent
fresh_agent-IsValid = record { reached = tt; fresh = tt }

resumed-IsValid : IsValid (resumed "b1")
resumed-IsValid = record { reached = tt; fresh = tt }

abbrev begun : Reply × Agent Disk
begun = handle_start_support toy start_request fresh_agent

abbrev ended : Reply × Agent Disk
ended = handle_stop_support toy stop_request (resumed "b1")

start_succeeds : begun.0.response.success ≡ true
unfolding handle_start_support success_response snapshot start_heartbeat_loop stop_heartbeat_loop
    begin_session new new_client trim_space begin_session_call perform_json new_request path
    read_response unmarshal decode_response decode_struct encode_session decode_session
    validate_session validate_state save_session Calls.current_boot_id current_boot_id save load
    read_state encode_state decode_state is
start_succeeds = refl

stop_succeeds : ended.0.response.success ≡ true
unfolding handle_stop_support success_response snapshot stop_session resolve_pin stop_heartbeat_loop
    end_session_for_pin end_session_call perform_json new_request read_response new_client path
    validate_pin load clear read_state unmarshal decode_state encode_state decode_struct
    encode_session decode_session validate_session validate_state trim_space new is
stop_succeeds = refl
