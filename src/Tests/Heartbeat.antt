-- ===== src/Tests/Heartbeat.antt =====
-- Heartbeat loops, stops and reboots of a small agent.
use rook_servicechannel_agen.Common.{◌≤◌, String, true, none, ◌≡◌, refl}
use rook_servicechannel_agen.Text.{trim_space}
use rook_servicechannel_agen.Errors.{
  Error, text, sentinel, canceled, request_cause, Operation, is, is_request,
}
use rook_servicechannel_agen.Action.{ok, err}
use rook_servicechannel_agen.Json.{decode_struct}
use rook_servicechannel_agen.Backend.Contract.{
  validate_session, validate_state, validate_pin, path, encode_session, decode_session,
}
use rook_servicechannel_agen.Backend.Client.{
  new_client, end_session_call, perform_json, new_request, read_response, unmarshal,
}
use rook_servicechannel_agen.Session.Store.{
  State, load, clear, decode_state, encode_state, current_boot_id, read_state,
}
use rook_servicechannel_agen.Runtime.State.{Loop, Agent, new}
use rook_servicechannel_agen.Runtime.Calls
use rook_servicechannel_agen.Runtime.Manager.{
  snapshot_of, start_heartbeat_loop, stop_heartbeat_loop, handle_heartbeat,
}
use rook_servicechannel_agen.Runtime.Calls.{
  stop_session, snapshot, resolve_pin, recover_after_boot, recover_state, load_state,
  end_session_for_pin,
}
use rook_servicechannel_agen.Runtime.Heartbeat.{IsValid}
use rook_servicechannel_agen.Runtime.Heartbeat.Steps.{
  live, start, Reach, here, next, Reach-live, stale_failure,
}
use rook_servicechannel_agen.Runtime.Heartbeat.Steps.Overlap.{
  overlapping_starts, overlapping_starts-leak,
}
use rook_servicechannel_agen.Runtime.Sessions.{IsGone}
use rook_servicechannel_agen.Runtime.Calls.{shut_down_service}
use rook_servicechannel_agen.Runtime.Sessions.Shutdown.{shut_down_service-silent}
use rook_servicechannel_agen.Runtime.Sessions.Stop.{stop_session-gone}
use rook_servicechannel_agen.Runtime.Sessions.Reboot.{Rebooted, recover_after_boot-true}
use rook_servicechannel_agen.Tests.Toy.{Disk, toy, toy-Laws}
use rook_servicechannel_agen.Tests.Agents.{resumed, saved_state, fresh_agent}

fresh_agent-IsValid : IsValid fresh_agent
fresh_agent-IsValid = record { reached = tt; fresh = tt }

-- Two starts, one after the other.
two_starts : Reach fresh_agent (start_heartbeat_loop "2" (start_heartbeat_loop "1" fresh_agent).1).1
two_starts = next (next here (start "1" refl)) (start "2" refl)

Reach-live_example :
    live (start_heartbeat_loop "2" (start_heartbeat_loop "1" fresh_agent).1).1.loops ≤ 1
Reach-live_example = Reach-live fresh_agent-IsValid two_starts

overlapping_starts-leak_example :
    (live (overlapping_starts "1" "2" fresh_agent).loops ≡ 2)
    × (live (stop_heartbeat_loop (overlapping_starts "1" "2" fresh_agent)).1.loops ≡ 1)
overlapping_starts-leak_example = overlapping_starts-leak "1" "2" fresh_agent fresh_agent-IsValid

abbrev old_loop : Loop
old_loop = record { id = 0; pin = "1"; cancelled = true }

abbrev late_error : Error
late_error = request_cause Operation.ping 0 (sentinel canceled)

stale_failure_example :
    (live (start_heartbeat_loop "2" fresh_agent).1.loops ≡ 1)
    × (live
          (handle_heartbeat old_loop
            (err late_error)
            (start_heartbeat_loop "2" fresh_agent).1).1.loops
        ≡ 0)
    × ((handle_heartbeat old_loop
          (err late_error)
          (start_heartbeat_loop "2" fresh_agent).1).1.manager.heartbeat_cancel
        ≡ none)
stale_failure_example =
    stale_failure old_loop late_error "2" fresh_agent fresh_agent-IsValid
      (unfold is_request in refl)

loaded : (id : String) → load_state toy (resumed id) ≡ (ok saved_state, resumed id)
unfolding load read_state unmarshal decode_state encode_state decode_struct encode_session
    decode_session validate_session validate_state trim_space new
loaded id = refl

running : (id : String) → Calls.current_boot_id toy (resumed "b1") ≡ (ok "b1", resumed "b1")
unfolding Calls.current_boot_id current_boot_id trim_space new
running id = refl

rebooted :
    recover_after_boot toy (resumed "b2") ≡ (ok true, (recover_after_boot toy (resumed "b2")).1)
unfolding recover_after_boot recover_state load clear read_state unmarshal decode_state encode_state
    decode_struct encode_session decode_session validate_session validate_state trim_space new
    Calls.current_boot_id current_boot_id is
rebooted = refl

recover_after_boot-true_example :
    (state : State) × (after : Agent Disk) × (load_state toy (resumed "b2") ≡ (ok state, after))
    × Rebooted toy state after
    × IsGone toy (recover_after_boot toy (resumed "b2")).1
recover_after_boot-true_example = recover_after_boot-true toy toy-Laws (resumed "b2") _ rebooted

stopped : stop_session toy "" (resumed "b1") ≡ (ok tt, (stop_session toy "" (resumed "b1")).1)
unfolding stop_session resolve_pin stop_heartbeat_loop end_session_for_pin end_session_call
    perform_json new_request read_response new_client path validate_pin load clear read_state
    unmarshal decode_state encode_state decode_struct encode_session decode_session validate_session
    validate_state trim_space new is
stopped = refl

resumed-IsValid : IsValid (resumed "b1")
resumed-IsValid = record { reached = tt; fresh = tt }

stop_session-gone_example :
    (resolve_pin toy "" (stop_session toy "" (resumed "b1")).1 ≡ (
      err (text "no active session state found; use start first or provide --pin"),
      (stop_session toy "" (resumed "b1")).1,
    ))
    × (snapshot toy (stop_session toy "" (resumed "b1")).1 ≡ (
      ok (snapshot_of (stop_session toy "" (resumed "b1")).1.manager none),
      (stop_session toy "" (resumed "b1")).1,
    ))
    × ((stop_session toy "" (resumed "b1")).1.manager.heartbeat_cancel ≡ none)
    × (live (stop_session toy "" (resumed "b1")).1.loops ≡ 0)
stop_session-gone_example =
    stop_session-gone toy toy-Laws "" (resumed "b1") _ resumed-IsValid stopped

shut_down_service-silent_example : live (shut_down_service toy (resumed "b1")).1.loops ≡ 0
shut_down_service-silent_example = shut_down_service-silent toy (resumed "b1") resumed-IsValid
