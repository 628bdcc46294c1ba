-- ===== src/Errors.antt =====
-- Errors as the agent builds, prints and tests them: `errors.New`, `fmt.Errorf` with %w,
-- `errors.Join`, `*backend.RequestError`, `errors.Is` and `errors.As`.
use Prim.Native.Char.{Char}
use Prim.Native.String.{◌∷◌, ◌++◌ as concat}
use rook_servicechannel_agen.Common.{
  ℕ, zero, suc, ◌/◌, ◌%◌, String, Bool, true, false, ◌&&◌, ◌||◌, Option, none, some, ◌==◌,
  if◌then◌else◌,
}
use rook_servicechannel_agen.Text.{is_empty}

-- The four calls of the console API.
pub data Operation : Type 0 where
  begin_session status ping end_session : Operation

unfoldable pub operation_name : Operation → String
operation_name begin_session = "beginsession"
operation_name status = "status"
operation_name ping = "ping"
operation_name end_session = "endsession"

-- The error values that are compared by identity.
pub data Sentinel : Type 0 where
  state_not_found not_exist exec_not_found eof canceled deadline_exceeded : Sentinel

abbrev sentinel_eq : Sentinel → Sentinel → Bool
sentinel_eq state_not_found state_not_found = true
sentinel_eq not_exist not_exist = true
sentinel_eq exec_not_found exec_not_found = true
sentinel_eq eof eof = true
sentinel_eq canceled canceled = true
sentinel_eq deadline_exceeded deadline_exceeded = true
sentinel_eq _ _ = false

abbrev sentinel_text : Sentinel → String
sentinel_text state_not_found = "session state not found"
sentinel_text not_exist = "file does not exist"
sentinel_text exec_not_found = "executable file not found in $PATH"
sentinel_text eof = "EOF"
sentinel_text canceled = "context canceled"
sentinel_text deadline_exceeded = "context deadline exceeded"

-- `wrap before e after` is `fmt.Errorf("before%wafter", e)`. A `RequestError` is one of the
-- constructors `request` (its Cause is nil) and `request_cause`.
mutual
  pub data Error : Type 0 where
    text : String → Error
    sentinel : Sentinel → Error
    wrap : String → Error → String → Error
    request : Operation → ℕ → String → String → Error
    request_cause : Operation → ℕ → Error → Error
    joined : Errors → Error

  pub data Errors : Type 0 where
    nil : Errors
    cons : Error → Errors → Errors

abbrev digit : ℕ → Char
digit zero = "0"
digit (suc zero) = "1"
digit (suc (suc zero)) = "2"
digit (suc (suc (suc zero))) = "3"
digit (suc (suc (suc (suc zero)))) = "4"
digit (suc (suc (suc (suc (suc zero))))) = "5"
digit (suc (suc (suc (suc (suc (suc zero)))))) = "6"
digit (suc (suc (suc (suc (suc (suc (suc zero))))))) = "7"
digit (suc (suc (suc (suc (suc (suc (suc (suc zero)))))))) = "8"
digit _ = "9"

decimal_onto : ℕ → ℕ → String → String
decimal_onto zero n acc = acc
decimal_onto (suc fuel) n acc =
    let longer = decimal_onto fuel (n / 10) (digit (n % 10) ∷ acc) in
    if n / 10 == 0 then digit (n % 10) ∷ acc else longer

-- `%d` of a number that is not negative; a number has at most itself and one digits.
unfoldable pub decimal : ℕ → String
unfolding decimal_onto
decimal n = decimal_onto (suc n) n ""

-- `(*RequestError).Error` where Code or Message is set, and where neither is.
abbrev request_text : Operation → ℕ → String → String → String
request_text op code msg_code msg =
    if is_empty msg_code && is_empty msg
    then concat (operation_name op) (concat " failed with status " (decimal code))
    else concat (operation_name op) (
        concat " failed with status "
          (concat (decimal code) (concat ": " (concat msg (concat " (" (concat msg_code ")"))))))

-- `err.Error()`
unfoldable mutual
  unfolding operation_name decimal

  pub message : Error → String
  message (text s) = s
  message (sentinel s) = sentinel_text s
  message (wrap before e after) = concat before (concat (message e) after)
  message (request op status_code code msg) = request_text op status_code code msg
  message (request_cause op status_code cause) =
      concat (operation_name op) (concat " failed: " (message cause))
  message (joined es) = messages es

  pub messages : Errors → String
  messages nil = ""
  messages (cons e nil) = message e
  messages (cons e (cons f es)) = concat (message e) (concat "\n" (messages (cons f es)))

-- `errors.Is(err, target)`
unfoldable mutual
  pub is : Sentinel → Error → Bool
  is target (text s) = false
  is target (sentinel s) = sentinel_eq s target
  is target (wrap before e after) = is target e
  is target (request op status_code code msg) = false
  is target (request_cause op status_code cause) = is target cause
  is target (joined es) = any_is target es

  pub any_is : Sentinel → Errors → Bool
  any_is target nil = false
  any_is target (cons e es) = is target e || any_is target es

-- `errors.As(err, &requestErr)` for `*backend.RequestError`
unfoldable mutual
  pub is_request : Error → Bool
  is_request (text s) = false
  is_request (sentinel s) = false
  is_request (wrap before e after) = is_request e
  is_request (request op status_code code msg) = true
  is_request (request_cause op status_code cause) = true
  is_request (joined es) = any_is_request es

  pub any_is_request : Errors → Bool
  any_is_request nil = false
  any_is_request (cons e es) = is_request e || any_is_request es

-- `errors.Join(errs...)` of the errors collected by a validation; nil where there are none.
abbrev pub join_errors : Errors → Option Error
join_errors nil = none
join_errors (cons e es) = some (joined (cons e es))

abbrev pub append : Errors → Errors → Errors
append nil es = es
append (cons e r) es = cons e (append r es)

-- The errors list of `if bad { errs = append(errs, e) }`.
abbrev pub error_if : Bool → Error → Errors
error_if true e = cons e nil
error_if false e = nil
