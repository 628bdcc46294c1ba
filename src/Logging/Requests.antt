-- ===== src/Logging/Requests.antt =====
-- What internal/ipc/server.go logs of a request through `JSONValue` of internal/logging.
use rook_servicechannel_agen.Common.{String, true, false, Option, some, ◌≡◌, refl, arith}
use rook_servicechannel_agen.Text.{is_empty, trim_space, lowers_to}
use rook_servicechannel_agen.Action.{ok}
use rook_servicechannel_agen.Json.{Json, str}
use rook_servicechannel_agen.Host.{Host}
use rook_servicechannel_agen.Ipc.Contract.{connect_wifi, ConnectWifiPayload}
use rook_servicechannel_agen.Ipc.Wire.{encode_connect}
use rook_servicechannel_agen.Ipc.Requests.{encode_request}
use rook_servicechannel_agen.Logging.{
  parse_level, new, debug_enabled, should_redact_key, numbers_fit, json_value,
}
use rook_servicechannel_agen.Logging.Laws.{
  Alike, AlikeEntry, same, both_obj, both_field, both_end, hidden, shown, json_bytes-Alike,
}

-- The request for a connection to a WiFi network.
abbrev pub connect_request : String → ConnectWifiPayload → Json
connect_request id p = encode_request id connect_wifi (some (encode_connect p))

password_key : should_redact_key "password" ≡ true
unfolding should_redact_key trim_space lowers_to
password_key = refl

connect_request-Alike :
    (id : String) (p q : ConnectWifiPayload)
    → p.ssid ≡ q.ssid
    → Alike (connect_request id p) (connect_request id q)
unfolding encode_request encode_connect
connect_request-Alike id p q e =
    let ssid : AlikeEntry "ssid" (str p.ssid) (str q.ssid) = rw e (shown (same (str q.ssid))) in
    let word : AlikeEntry "password" (str p.password) (str q.password) = hidden password_key in
    let payload = both_obj (both_field ssid (both_field word both_end)) in
    both_obj (
      both_field (shown (same (str id)))
        (both_field (shown (same (str _))) (both_field (shown payload) both_end)))

module _ (number : String → Option String) {W : Type 0} (host : Host W) where
  request_fits :
      (id : String) (p : ConnectWifiPayload) → numbers_fit number (connect_request id p) ≡ true
  unfolding numbers_fit encode_request encode_connect
  request_fits id p = refl

  -- A text that encoding/json prints of a request, and reads back.
  pub record IsPrinted (id : String) (p : ConnectWifiPayload) : Type 0 where
    pub some_text : is_empty (host.print_json (connect_request id p)) ≡ false
    pub read_back :
        host.parse_json (host.print_json (connect_request id p)) ≡ ok (connect_request id p)

  abbrev pub logged : String → ConnectWifiPayload → String
  logged id p = json_value number host (ok (host.print_json (connect_request id p)))

  -- The debug log of a request to connect to a WiFi network does not depend on the password: two such
  -- requests with the same id and SSID, which encoding/json prints and reads back, are logged as the same
  -- text.
  pub json_value-password :
      (id : String) (p q : ConnectWifiPayload)
      → p.ssid ≡ q.ssid
      → IsPrinted id p
      → IsPrinted id q
      → logged id p ≡ logged id q
  unfolding json_value
  json_value-password id p q e h k =
      json_bytes-Alike number host _ _ h.some_text k.some_text h.read_back k.read_back
        (request_fits id p) (request_fits id q) (connect_request-Alike id p q e)

-- A logger writes messages for debugging exactly if its level is "debug", up to case and spaces around it.
pub debug_enabled-new :
    (level : String) → debug_enabled (some (new level)) ≡ lowers_to (trim_space level) "debug"
unfolding debug_enabled new parse_level
debug_enabled-new level = ground arith
