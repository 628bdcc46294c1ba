-- ===== src/Tests/Machine.antt =====
-- A session of a small agent, from its start to its end.
use rook_servicechannel_agen.Common.{List, [], ◌∷◌, refl}
use rook_servicechannel_agen.Text.{trim_space}
use rook_servicechannel_agen.Errors.{is}
use rook_servicechannel_agen.Json.{decode_struct}
use rook_servicechannel_agen.Backend.Contract.{
  validate_session, validate_state, validate_pin, path, decode_response, encode_session,
  decode_session,
}
use rook_servicechannel_agen.Backend.Client.{
  new_client, begin_session_call, end_session_call, perform_json, new_request, read_response,
  unmarshal,
}
use rook_servicechannel_agen.Session.Store.{
  current_boot_id, save, load, clear, read_state, decode_state, encode_state,
}
use rook_servicechannel_agen.Runtime.State.{Agent, new}
use rook_servicechannel_agen.Runtime.Manager.{start_heartbeat_loop, stop_heartbeat_loop}
use rook_servicechannel_agen.Runtime.Calls
use rook_servicechannel_agen.Runtime.Calls.{
  begin_session, save_session, resolve_pin, stop_session, end_session_for_pin,
}
use rook_servicechannel_agen.Runtime.Sessions.Machine.{
  View, idle, Label, began, told, stopped, beating, AllowedAll, SucceedAll, Represents,
  SucceedAll-AllowedAll,
}
use rook_servicechannel_agen.Tests.Toy.{Disk, toy, toy-Laws, sample}
use rook_servicechannel_agen.Tests.Agents.{fresh_agent}

abbrev labels : List Label
labels = began sample ∷ beating ∷ told "4711" ∷ stopped ∷ []

abbrev first : Agent Disk
first = (begin_session toy fresh_agent).1

abbrev second : Agent Disk
second = (start_heartbeat_loop "4711" first).1

abbrev third : Agent Disk
third = (resolve_pin toy "" second).1

abbrev fourth : Agent Disk
fourth = (stop_session toy "" third).1

all : SucceedAll toy fresh_agent labels fourth
unfolding begin_session new new_client trim_space begin_session_call perform_json new_request path
    read_response unmarshal decode_response decode_struct encode_session validate_session
    validate_state save_session Calls.current_boot_id current_boot_id save start_heartbeat_loop
    stop_heartbeat_loop stop_session resolve_pin end_session_for_pin end_session_call validate_pin
    load clear read_state decode_state encode_state decode_session is
all = (first, refl, (second, ("4711", refl), (third, refl, (fourth, ("", refl), refl))))

gone : Represents toy fresh_agent idle
unfolding load new is
gone = refl

SucceedAll-AllowedAll_example : (y : View) × AllowedAll idle labels y × Represents toy fourth y
SucceedAll-AllowedAll_example =
    SucceedAll-AllowedAll toy toy-Laws labels idle fresh_agent fourth gone all
