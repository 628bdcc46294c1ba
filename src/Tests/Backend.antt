-- ===== src/Tests/Backend.antt =====
-- A heartbeat of a small host whose backend cannot be reached.
use Prim.Native.String.{[], ◌∷◌}
use rook_servicechannel_agen.Common.{String, false, Option, none, some, ◌≡◌, refl, arith}
use rook_servicechannel_agen.Text.{trim_space}
use rook_servicechannel_agen.Errors.{
  Error, sentinel, canceled, request_cause, Operation, is_request,
}
use rook_servicechannel_agen.Action.{ok, err}
use rook_servicechannel_agen.Host.{Host, HttpRequest, PlainErrors}
use rook_servicechannel_agen.Session.Store.{State}
use rook_servicechannel_agen.Backend.Contract.{validate_pin, path}
use rook_servicechannel_agen.Backend.Client.{Client, new_request, perform_json, heartbeat_call}
use rook_servicechannel_agen.Backend.Failures.{
  fails_by_request, is_refused, heartbeat_call-is_request,
}
use rook_servicechannel_agen.Tests.Toy.{Disk, toy, parse, parsed, read_text}
use rook_servicechannel_agen.Tests.Agents.{empty_disk}

abbrev offline : Host Disk
offline = record toy { send = λ req disk. (err (sentinel canceled), disk) }

parsed_plain : (o : Option State) {e : Error} → parsed o ≡ err e → is_request e ≡ false
unfolding is_request
parsed_plain none h = ground arith
parsed_plain (some s) h = ground arith

parse_plain : (s : String) {e : Error} → parse s ≡ err e → is_request e ≡ false
unfolding is_request
parse_plain [] h = ground arith
parse_plain (c ∷ t) h = ground (arith, parsed_plain (read_text t))

offline-PlainErrors : PlainErrors offline
unfolding is_request
offline-PlainErrors = record {
  parse_plain = λ s h. parse_plain s h;
  shape_plain = λ s. refl;
  url_plain = λ s h. ground arith;
  body_plain = λ req w w' h b. ground arith;
}

abbrev console : Client
console = record {
  base_url = record { scheme = "http"; host = "console"; whole = "http://console" };
}

abbrev beat : HttpRequest
beat = record {
  method = "POST";
  url = "/api/console/1/ping";
  content_type = "application/json";
  accept = "application/json";
  body = "{}";
}

pin_valid : validate_pin "4711" ≡ none
unfolding validate_pin trim_space
pin_valid = refl

beat_made : new_request offline Operation.ping (path Operation.ping) "{}" ≡ ok beat
unfolding new_request path
beat_made = refl

beat_fails :
    heartbeat_call offline console "4711" empty_disk
    ≡ (err (request_cause Operation.ping 0 (sentinel canceled)), empty_disk)
unfolding heartbeat_call perform_json new_request path validate_pin trim_space
beat_fails = refl

heartbeat_call-is_request_example :
    fails_by_request (heartbeat_call offline console "4711" empty_disk).0
    ≡ is_refused (offline.send beat empty_disk).0
heartbeat_call-is_request_example =
    heartbeat_call-is_request offline offline-PlainErrors console "4711" beat empty_disk pin_valid
      beat_made
