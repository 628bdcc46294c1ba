-- ===== src/Ipc/Reply.antt =====
-- internal/ipc/server.go: responses and events, and how a handler ends with an error.
use rook_servicechannel_agen.Common.{String, Bool, true, false, none, some, List, [], ◌∷◌}
use rook_servicechannel_agen.Errors.{Error, message}
use rook_servicechannel_agen.Action.{Result, ok, err, Action as Call}
use rook_servicechannel_agen.Network.Nmcli.{ConnectionState}
use rook_servicechannel_agen.Runtime.State.{Agent, Snapshot}
use rook_servicechannel_agen.Ipc.Contract.{
  Request, Payload, status, pin, wifi_scan, connection_state, error, Event, support_state_changed,
  wifi_scan_completed, wifi_connection_state_changed, vpn_state_changed, pin_assigned, error_raised,
  Response, state_text, new_status_payload,
}

-- What `handleRequest` returns.
pub record Reply : Type 0 where
  pub response : Response
  pub events : List Event

-- `successResponse`
unfoldable pub success_response : Request → Payload → Response
success_response r p = record {
  id = r.id;
  action = r.action;
  success = true;
  payload = some p;
  error = none;
}

-- `errorResponse`
unfoldable pub error_response : Request → String → String → Response
error_response r code msg = record {
  id = r.id;
  action = r.action;
  success = false;
  payload = none;
  error = some (record { code = code; message = msg });
}

-- `supportStateEvent`
unfoldable pub support_state_event : Snapshot → Event
unfolding new_status_payload
support_state_event s = record {
  event = support_state_changed;
  payload = status (new_status_payload s);
}

-- `errorEvent`
unfoldable pub error_event : Error → Event
unfolding message
error_event e = record {
  event = error_raised;
  payload = error (record { code = "runtime_error"; message = message e });
}

abbrev pub wifi_event : ConnectionState → Event
wifi_event s = record {
  event = wifi_connection_state_changed;
  payload = connection_state (state_text s);
}

abbrev pub vpn_event : ConnectionState → Event
vpn_event s = record { event = vpn_state_changed; payload = connection_state (state_text s) }

abbrev pub scan_event : List String → Event
scan_event networks = record { event = wifi_scan_completed; payload = wifi_scan networks }

abbrev pub pin_event : String → Event
pin_event p = record { event = pin_assigned; payload = pin p }

-- Whether a failing branch also raises an error event.
abbrev pub events_if : Bool → Error → List Event
events_if true e = error_event e ∷ []
events_if false e = []

abbrev pub refuse : Request → String → Bool → Error → Reply
refuse req code raise e = record {
  response = error_response req code (message e);
  events = events_if raise e;
}

abbrev pub accept : Request → Payload → List Event → Reply
accept req p events = record { response = success_response req p; events = events }

abbrev pub Handler : Type 0 → Type 0
Handler W = Agent W → Reply × Agent W

module _ {W : Type 0} where
  abbrev pub reply : Reply → Handler W
  reply r a = (r, a)

  -- `if err != nil { return errorResponse(request, code, err.Error()), events }`
  abbrev pub answer_with :
      {A : Type 0} → Request → String → Bool → (A → Handler W) → Result A → Handler W
  answer_with req code raise k (ok x) a = k x a
  answer_with req code raise k (err e) a = (refuse req code raise e, a)

  abbrev pub or_refuse :
      {A : Type 0} → Request → String → Bool → Call (Agent W) A → (A → Handler W) → Handler W
  or_refuse req code raise m k a = answer_with req code raise k (m a).0 (m a).1

  -- A call that returns no error, and what follows it.
  abbrev pub then_do : Call (Agent W) (Unit {0}) → Handler W → Handler W
  then_do m k a = k (m a).1
