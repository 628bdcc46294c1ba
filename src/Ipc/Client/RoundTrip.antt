-- ===== src/Ipc/Client/RoundTrip.antt =====
-- What the server of internal/ipc sends is what its client reads.
use Prim.Native.String.{[] as empty_text, ◌∷◌ as char_then}
use rook_servicechannel_agen.Common.{String, Option, none, some, List, [], ◌∷◌, ◌≡◌, refl, ap, ◌∙◌}
use rook_servicechannel_agen.Errors.{Error}
use rook_servicechannel_agen.Json.{Fields, names_field, decode_fields, decode_struct, decode_string}
use mathlib.Core.Option
use rook_servicechannel_agen.Ipc.Contract.{
  wifi_scan, Payload, ErrorPayload, SessionPayload, StatusPayload, VpnStatusPayload, Response,
  Event, action_name,
}
use rook_servicechannel_agen.Ipc.Wire.{
  encode_networks, encode_session, encode_status, encode_vpn, encode_error, encode_payload,
  encode_response, encode_event, event_name, networks_field, session_field,
}
use rook_servicechannel_agen.Ipc.Client.Incoming.{
  RawResponse, response, event, read_json, put, decode_bool,
}
use rook_servicechannel_agen.Ipc.Client.Payloads.{
  decode_networks, decode_status, decode_vpn, set_status, no_status, decode_scan,
}

decode_networks-encode : (ns : List String) → decode_networks (encode_networks ns) ≡ some ns
unfolding decode_networks encode_networks
decode_networks-encode [] = refl
decode_networks-encode (n ∷ ns) = rw (decode_networks-encode ns) refl

-- The field of the networks sets them, where there were none.
status_networks :
    (ns : List String) (rest : Fields) (p : StatusPayload)
    → decode_fields set_status (networks_field ns rest) (record p { networks = [] })
      ≡ decode_fields set_status rest (record p { networks = ns })
unfolding decode_fields names_field
status_networks [] rest p = refl
status_networks (n ∷ ns) rest p =
    ap
      (λ o. elim (put o (λ ms. record p { networks = ms })) as (λ _. Option StatusPayload) [
        | none ↦ none
        | some b ↦ decode_fields set_status rest b
      ])
      (decode_networks-encode (n ∷ ns))

status_session :
    (session : Option SessionPayload) (p : StatusPayload)
    → decode_fields set_status (session_field session) (record p { session = none })
      ≡ some (record p { session = session })
unfolding decode_fields names_field encode_session decode_struct decode_string
status_session none p = refl
status_session (some s) p = refl

status_fields :
    (conn : String) (p : StatusPayload)
    → decode_status (encode_status (record p { active_wifi_connection = conn }))
      ≡ some (record p { active_wifi_connection = conn })
unfolding decode_status encode_status decode_struct decode_fields names_field no_status decode_bool
    decode_string
status_fields empty_text p =
    let q : StatusPayload = record p { active_wifi_connection = "" } in
    status_networks p.networks (session_field p.session) (record q { session = none })
    ∙ status_session p.session q
status_fields (char_then x y) p =
    let q : StatusPayload = record p { active_wifi_connection = char_then x y } in
    status_networks p.networks (session_field p.session) (record q { session = none })
    ∙ status_session p.session q

-- The status that a client reads is the one that was sent.
pub decode_status-encode_status : (p : StatusPayload) → decode_status (encode_status p) ≡ some p
decode_status-encode_status p = status_fields p.active_wifi_connection p

vpn_fields :
    (ip : String) (p : VpnStatusPayload)
    → decode_vpn (encode_vpn (record p { ip_address = ip })) ≡ some (record p { ip_address = ip })
unfolding decode_vpn encode_vpn
vpn_fields empty_text p = refl
vpn_fields (char_then x y) p = refl

pub decode_vpn-encode_vpn : (p : VpnStatusPayload) → decode_vpn (encode_vpn p) ≡ some p
decode_vpn-encode_vpn p = vpn_fields p.ip_address p

pub decode_scan-encode_payload :
    (ns : List String) → decode_scan (encode_payload (wifi_scan ns)) ≡ some ns
unfolding decode_scan encode_payload
decode_scan-encode_payload ns =
    ap (λ o. elim o as (λ _. Option (List String)) [ none ↦ none | some b ↦ some b ])
      (decode_networks-encode ns)

-- What a client makes of a response of the server.
abbrev pub raw_response : Response → RawResponse
raw_response r = record {
  id = r.id;
  action = action_name r.action;
  success = r.success;
  payload = Option.map encode_payload r.payload;
  message = Option.map (λ e. e.message) r.error;
}

read_response :
    (shape_error : String → Error) (r : Response) (p : Option Payload) (e : Option ErrorPayload)
    → read_json shape_error (encode_response (record r { payload = p; error = e }))
      ≡ response (raw_response (record r { payload = p; error = e }))
unfolding read_json encode_response encode_error
read_response shape_error r none none = refl
read_response shape_error r none (some e) = refl
read_response shape_error r (some p) none = refl
read_response shape_error r (some p) (some e) = refl

-- A response of the server is read by the client with its id, its action, its success, the
-- payload as it was sent and the message of its error.
pub read_json-encode_response :
    (shape_error : String → Error) (r : Response)
    → read_json shape_error (encode_response r) ≡ response (raw_response r)
read_json-encode_response shape_error r = read_response shape_error r r.payload r.error

pub read_json-encode_event :
    (shape_error : String → Error) (e : Event)
    → read_json shape_error (encode_event e)
      ≡ event (record { event = event_name e.event; payload = some (encode_payload e.payload) })
unfolding read_json encode_event
read_json-encode_event shape_error e = refl
