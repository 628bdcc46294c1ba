-- ===== src/Backend/Client.antt =====
-- internal/backend/client.go: one JSON call of the console API. The debug log lines are left out.
use rook_servicechannel_agen.Common.{ℕ, String, ◌||◌, not, Option, none, some, ◌==◌, if◌then◌else◌}
use Prim.Native.String.{◌++◌ as concat}
use rook_servicechannel_agen.Text.{is_empty, trim_space}
use rook_servicechannel_agen.Errors.{
  Error, text, wrap, request, request_cause, Operation, begin_session, status, ping, end_session,
  operation_name,
}
use rook_servicechannel_agen.Action.{
  Result, ok, err, Action, of_result, ◌>>=◌, ◌>>◌, check, wrap_error,
}
use rook_servicechannel_agen.Json.{Json}
use rook_servicechannel_agen.Host.{Host, Url, HttpRequest, HttpResponse}
use rook_servicechannel_agen.Backend.Contract.{
  SupportSession, no_session, path, validate_session, validate_pin, encode_empty, encode_pin,
  decode_empty, decode_response, decode_error,
}

pub record Client : Type 0 where
  pub base_url : Url

-- A response type of `performJSON`: its zero value, its decoder and its `Validate` method.
pub record Response (A : Type 0) : Type 0 where
  pub zero_value : A
  pub decode : Json → Option A
  pub validate : A → Option Error

abbrev pub session_response : Response SupportSession
session_response = record {
  zero_value = no_session;
  decode = decode_response;
  validate = validate_session;
}

abbrev pub ack_response : Response (Unit {0})
ack_response = record { zero_value = tt; decode = decode_empty; validate = λ _. none }

abbrev pub status_ok : ℕ
status_ok = 200

abbrev pub named : String → Operation → String → Error → Error
named before op after e = wrap (concat before (concat (operation_name op) after)) e ""

module _ {W : Type 0} (host : Host W) where
  -- `NewClientWithLogger`
  unfoldable pub new_client : String → Result Client
  new_client base_url = elim (host.parse_url (trim_space base_url)) [
    | err e ↦ err (wrap "parse backend base URL: " e "")
    | ok url ↦
        if is_empty url.scheme || is_empty url.host
        then err (text "backend base URL must include scheme and host")
        else ok (record { base_url = url })
  ]

  -- `json.Unmarshal` of a text into a struct
  unfoldable pub unmarshal : {A : Type 0} → (Json → Option A) → String → Result A
  unmarshal decode body = elim (host.parse_json body) [
    | err e ↦ err e
    | ok j ↦ elim (decode j) [ none ↦ err (host.shape_error body) | some a ↦ ok a ]
  ]

  -- The `*RequestError` for a response whose status is not 200.
  unfoldable pub status_error : Operation → ℕ → String → Error
  status_error op code body =
      if is_empty body then request op code "" "" else elim (unmarshal decode_error body) [
        | ok r ↦ request op code r.code r.message
        | err e ↦ request_cause op code (wrap "decode error response: " e "")
      ]

  -- `http.NewRequestWithContext` fails where the URL does not parse.
  unfoldable pub new_request : Operation → String → String → Result HttpRequest
  new_request op url body = elim (host.parse_url url) [
    | err e ↦ err (named "create " op " request: " e)
    | ok _ ↦ ok (record {
      method = "POST";
      url = url;
      content_type = "application/json";
      accept = "application/json";
      body = body;
    })
  ]

  -- What `performJSON` does with a response's status and body.
  unfoldable pub read_response : {A : Type 0} → Response A → Operation → ℕ → String → Result A
  read_response resp op code body =
      if not (code == status_ok)
      then err (status_error op code body)
      else if is_empty body
      then ok resp.zero_value
      else elim (unmarshal resp.decode body) [
        | err e ↦ err (named "decode " op " response: " e)
        | ok a ↦ elim (resp.validate a) [
          | none ↦ ok a
          | some e ↦ err (named "validate " op " response: " e)
        ]
      ]

  -- `performJSON` from the response on, and from the request on.
  abbrev pub receive : {A : Type 0} → Response A → Operation → HttpResponse → Action W A
  receive resp op answer = do
    response_body ← wrap_error (named "read " op " response: ") (of_result answer.body)
    of_result (read_response resp op answer.status_code response_body)

  abbrev pub exchange : {A : Type 0} → Response A → Operation → HttpRequest → Action W A
  exchange resp op req = do
    answer ← wrap_error (request_cause op 0) (host.send req)
    receive resp op answer

  -- `performJSON`
  unfoldable pub perform_json : {A : Type 0} → Response A → Client → Operation → Json → Action W A
  perform_json resp client op body = do
    req ←
        of_result (new_request op (host.endpoint client.base_url (path op)) (host.print_json body))
    exchange resp op req

  -- `Client.BeginSession`, `GetSessionStatus`, `SendSessionHeartbeat`, `EndSession`
  unfoldable pub begin_session_call : Client → Action W SupportSession
  begin_session_call client = perform_json session_response client begin_session encode_empty

  unfoldable pub status_call : Client → String → Action W SupportSession
  status_call client pin = do
    check (validate_pin pin)
    perform_json session_response client status (encode_pin pin)

  unfoldable pub heartbeat_call : Client → String → Action W (Unit {0})
  heartbeat_call client pin = do
    check (validate_pin pin)
    perform_json ack_response client ping (encode_pin pin)

  unfoldable pub end_session_call : Client → String → Action W (Unit {0})
  end_session_call client pin = do
    check (validate_pin pin)
    perform_json ack_response client end_session (encode_pin pin)
