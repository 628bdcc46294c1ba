-- ===== src/Backend/Contract.antt =====
-- internal/backend/contract.go: sessions, the requests and responses of the console API, and
-- their validation. `none` is the nil error.
use rook_servicechannel_agen.Common.{
  ℕ, String, Bool, ◌||◌, Option, none, some, str_eq, if◌then◌else◌,
}
use Prim.Native.String.{◌++◌ as concat}
use rook_servicechannel_agen.Text.{is_empty, trim_space, quote}
use rook_servicechannel_agen.Errors.{
  Error, text, Errors, nil, append, error_if, join_errors, Operation, operation_name,
}
use rook_servicechannel_agen.Json.{
  Json, str, obj, end, field, names_field, decode_string, decode_struct,
}

-- Durations are in milliseconds.
abbrev pub heartbeat_frequency : ℕ
heartbeat_frequency = 10000

-- `Operation.Path`
unfoldable pub path : Operation → String
unfolding operation_name
path op = concat "/api/console/1/" (operation_name op)

-- `SupportSession`; its status is a text, which the validation checks.
pub record SupportSession : Type 0 where
  pub status : String
  pub pin : String
  pub ip_address : String

abbrev pub no_session : SupportSession
no_session = record { status = ""; pin = ""; ip_address = "" }

abbrev pub is_session_state : String → Bool
is_session_state s = str_eq s "open" || str_eq s "active" || str_eq s "closed"

-- `SupportSessionState.Validate`
unfoldable pub validate_state : String → Option Error
validate_state s =
    if is_session_state s then none else some (text (concat "unsupported session state " (quote s)))

-- `strings.TrimSpace(s) == ""`
abbrev pub is_blank : String → Bool
is_blank s = is_empty (trim_space s)

abbrev of_option : Option Error → Errors
of_option none = nil
of_option (some e) = Errors.cons e nil

-- `SupportSession.Validate`
unfoldable pub validate_session : SupportSession → Option Error
unfolding validate_state
validate_session s = join_errors (
    append (of_option (validate_state s.status)) (
      append (error_if (is_blank s.pin) (text "session pin must not be empty"))
        (error_if (is_blank s.ip_address) (text "session ipAddress must not be empty"))))

-- `validatePIN`, which the three requests with a PIN call.
unfoldable pub validate_pin : String → Option Error
validate_pin pin = if is_blank pin then some (text "pin must not be empty") else none

pub record ErrorResponse : Type 0 where
  pub code : String
  pub message : String

-- `ErrorResponse.Validate`
unfoldable pub validate_error : ErrorResponse → Option Error
validate_error r = join_errors (
    append (error_if (is_blank r.code) (text "error code must not be empty"))
      (error_if (is_blank r.message) (text "error message must not be empty")))

-- Encoding and decoding by the `json:"..."` tags.
unfoldable pub encode_session : SupportSession → Json
encode_session s = obj (
    field "status" (str s.status)
      (field "pin" (str s.pin) (field "ipAddress" (str s.ip_address) end)))

abbrev set_session : String → Json → SupportSession → Option SupportSession
set_session key v s =
    if names_field key "status"
    then elim (decode_string v s.status) [ none ↦ none | some t ↦ some (record s { status = t }) ]
    else if names_field key "pin"
    then elim (decode_string v s.pin) [ none ↦ none | some t ↦ some (record s { pin = t }) ]
    else if names_field key "ipAddress"
    then elim (decode_string v s.ip_address) [
      | none ↦ none
      | some t ↦ some (record s { ip_address = t })
    ]
    else some s

unfoldable pub decode_session : Json → SupportSession → Option SupportSession
unfolding decode_struct names_field decode_string
decode_session = decode_struct set_session

-- `StartSupportSessionRequest` and `GenericAckResponse` have no fields.
abbrev pub encode_empty : Json
encode_empty = obj end

unfoldable pub decode_empty : Json → Option (Unit {0})
unfolding decode_struct
decode_empty j = decode_struct (λ key v u. some u) j tt

-- `SessionStatusRequest`, `SessionHeartbeatRequest`, `EndSupportSessionRequest`
abbrev pub encode_pin : String → Json
encode_pin pin = obj (field "pin" (str pin) end)

abbrev set_response : String → Json → SupportSession → Option SupportSession
set_response key v s = if names_field key "session" then decode_session v s else some s

-- `StartSupportSessionResponse` and `SessionStatusResponse` hold one field, the session.
unfoldable pub decode_response : Json → Option SupportSession
unfolding decode_struct names_field decode_session
decode_response j = decode_struct set_response j no_session

abbrev set_error : String → Json → ErrorResponse → Option ErrorResponse
set_error key v r =
    if names_field key "code"
    then elim (decode_string v r.code) [ none ↦ none | some t ↦ some (record r { code = t }) ]
    else if names_field key "message"
    then elim (decode_string v r.message) [ none ↦ none | some t ↦ some (record r { message = t }) ]
    else some r

unfoldable pub decode_error : Json → Option ErrorResponse
unfolding decode_struct names_field decode_string
decode_error j = decode_struct set_error j (record { code = ""; message = "" })
