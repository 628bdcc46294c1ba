-- ===== src/Tests/Calls.antt =====
-- A call of a small client.
use rook_servicechannel_agen.Common.{
  ℕ, Bool, ◌≤◌, ◌<◌, String, true, false, none, some, [], ◌≡◌, refl, arith, length,
}
use rook_servicechannel_agen.Errors.{Error, text, decimal, sentinel, eof}
use rook_servicechannel_agen.Json.{decode_struct, decode_fields, decode_string, names_field}
use rook_servicechannel_agen.Ipc.Contract.{Action, Request, Response, action_name, Payload}
use rook_servicechannel_agen.Ipc.Wire.{encode_response, encode_payload}
use rook_servicechannel_agen.Ipc.Server.{handle_request}
use rook_servicechannel_agen.Ipc.Client.{
  call_returns, waiting, answered, Client, dialed, call_id, register, receive, deliver, lose,
}
use rook_servicechannel_agen.Ipc.Client.Incoming.{RawResponse, read_json, decode_bool}
use rook_servicechannel_agen.Ipc.Client.Steps.{Step, Reach, Reach-deliver}
use rook_servicechannel_agen.Ipc.Client.Calls.{lose-waiting}
use rook_servicechannel_agen.Ipc.Client.RoundTrip.{raw_response}
use rook_servicechannel_agen.Ipc.Client.Exchange.{register-answered}
use rook_servicechannel_agen.Tests.Toy.{toy}
use rook_servicechannel_agen.Tests.Agents.{fresh_agent}

abbrev pong : Response
pong = record {
  id = "1";
  action = Action.ping;
  success = true;
  payload = some Payload.empty;
  error = none;
}

abbrev shape : String → Error
shape s = text "json: cannot unmarshal"

abbrev called : Client
called = register dialed

-- The client that holds the response.
abbrev holding : Client
holding = record called { pending = []; in_hand = some (0, raw_response pong) }

received : receive false shape (encode_response pong) called ≡ some holding
unfolding receive register dialed encode_response encode_payload action_name decimal read_json
    decode_struct decode_fields decode_string decode_bool names_field
received = refl

is_reading : called.reading ≡ true
unfolding register dialed
is_reading = refl

is_idle : called.in_hand ≡ none
unfolding register dialed
is_idle = refl

reached : Reach dialed holding
reached =
    Reach.next (Reach.next Reach.here (Step.call refl))
      (Step.read false shape (encode_response pong) is_reading is_idle received)

Reach-deliver_example :
    ((t : Client) × (deliver holding ≡ some t))
    × ((n : ℕ) (r : RawResponse) → holding.channels n ≡ answered r → r.id ≡ call_id n)
    × (length holding.events ≤ 32)
    × (length holding.errors ≤ 1)
Reach-deliver_example = Reach-deliver reached

abbrev ping_request : Request
ping_request = record { id = "1"; action = Action.ping; payload = "" }

first_id : ping_request.id ≡ call_id dialed.calls
unfolding dialed decimal
first_id = refl

idle_dialed : dialed.in_hand ≡ none
unfolding dialed
idle_dialed = refl

register-answered_example :
    let r = (handle_request toy ping_request fresh_agent).0.response in
    (t : Client) × (u : Client) × (receive false shape (encode_response r) (register dialed)
      ≡ some t)
    × (deliver t ≡ some u)
    × (u.channels dialed.calls ≡ answered (raw_response r))
register-answered_example =
    register-answered toy false shape ping_request fresh_agent Reach.here idle_dialed first_id

is_made : 0 < called.calls
unfolding register dialed
is_made = omega arith

is_waiting : called.channels 0 ≡ waiting
unfolding register dialed
is_waiting = refl

still_open : (lose (sentinel eof) called).is_closed ≡ false
unfolding lose register dialed
still_open = refl

lose-waiting_example :
    ((lose (sentinel eof) called).channels 0 ≡ waiting)
    × ((done : Bool) → call_returns done ((lose (sentinel eof) called).channels 0) ≡ done)
lose-waiting_example =
    lose-waiting 0 (sentinel eof) called (lose (sentinel eof) called) is_idle is_made is_waiting
      Reach.here still_open
