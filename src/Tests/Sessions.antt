-- ===== src/Tests/Sessions.antt =====
-- Sessions and heartbeat loops of a small agent.
use rook_servicechannel_agen.Common.{none, some, ◌≡◌, refl}
use rook_servicechannel_agen.Action.{ok}
use rook_servicechannel_agen.Backend.Contract.{validate_session}
use rook_servicechannel_agen.Session.Store.{save, load, clear}
use rook_servicechannel_agen.Session.Laws.{load-save}
use rook_servicechannel_agen.Runtime.State.{new}
use rook_servicechannel_agen.Runtime.Manager.{snapshot_of}
use rook_servicechannel_agen.Runtime.Calls.{
  begin_session, stop_session, snapshot, resolve_pin, recover_after_boot, load_state,
}
use rook_servicechannel_agen.Runtime.Heartbeat.{IsValid}
use rook_servicechannel_agen.Runtime.Sessions.{begin_session-current}
use rook_servicechannel_agen.Text.{trim_space}
use rook_servicechannel_agen.Backend.Contract.{
  validate_state, path, decode_response, encode_session,
}
use rook_servicechannel_agen.Json.{decode_struct}
use rook_servicechannel_agen.Backend.Client.{
  new_client, begin_session_call, perform_json, new_request, read_response, unmarshal,
}
use rook_servicechannel_agen.Session.Store.{current_boot_id}
use rook_servicechannel_agen.Runtime.Calls
use rook_servicechannel_agen.Runtime.Calls.{save_session}
use rook_servicechannel_agen.Tests.Agents.{store, empty_disk, saved_state, fresh_agent}
use rook_servicechannel_agen.Tests.Toy.{toy, toy-Laws, sample}

-- A save on the empty disk, and what is loaded then.
saved : save toy store saved_state empty_disk ≡ (ok tt, (save toy store saved_state empty_disk).1)
unfolding save validate_session validate_state trim_space
saved = refl

load-save_example :
    load toy store (save toy store saved_state empty_disk).1
    ≡ (ok saved_state, (save toy store saved_state empty_disk).1)
load-save_example = load-save toy toy-Laws store saved_state empty_disk _ saved

cleared :
    clear toy store (save toy store saved_state empty_disk).1
    ≡ (ok tt, (clear toy store (save toy store saved_state empty_disk).1).1)
unfolding clear save validate_session validate_state trim_space
cleared = refl

fresh_agent-IsValid : IsValid fresh_agent
fresh_agent-IsValid = record { reached = tt; fresh = tt }

begun : begin_session toy fresh_agent ≡ (ok sample, (begin_session toy fresh_agent).1)
unfolding begin_session new new_client trim_space begin_session_call perform_json new_request path
    read_response unmarshal decode_response decode_struct encode_session validate_session
    validate_state save_session Calls.current_boot_id current_boot_id save
begun = refl

begin_session-current_example :
    (validate_session sample ≡ none)
    × (resolve_pin toy "" (begin_session toy fresh_agent).1
        ≡ (ok "4711", (begin_session toy fresh_agent).1))
    × (snapshot toy (begin_session toy fresh_agent).1 ≡ (
      ok (snapshot_of (begin_session toy fresh_agent).1.manager (some sample)),
      (begin_session toy fresh_agent).1,
    ))
begin_session-current_example = begin_session-current toy toy-Laws fresh_agent _ begun
