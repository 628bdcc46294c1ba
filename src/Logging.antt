-- ===== src/Logging.antt =====
-- internal/logging/logging.go: log levels, and the JSON bodies in the log without their secrets.
pub mod Laws
pub mod Requests
use Prim.Native.String.{◌++◌ as concat}
use rook_servicechannel_agen.Common.{
  String, Bool, true, false, ◌&&◌, ◌||◌, Option, none, some, str_eq, if◌then◌else◌, is_some,
}
use rook_servicechannel_agen.Text.{is_empty, trim_space, lowers_to, less}
use rook_servicechannel_agen.Errors.{message}
use rook_servicechannel_agen.Action.{Result, ok, err}
use rook_servicechannel_agen.Json.{
  Json, null, bool, num, str, arr, obj, Items, nil, cons, Fields, end, field,
}
use rook_servicechannel_agen.Host.{Host}

pub data Level : Type 0 where
  debug info warn error : Level

-- `parseLevel`
unfoldable pub parse_level : String → Level
unfolding trim_space lowers_to
parse_level level =
    let name = trim_space level in
    if lowers_to name "debug"
    then debug
    else if lowers_to name "warn" || lowers_to name "warning"
    then warn
    else if lowers_to name "error"
    then error
    else info

-- A logger writes the messages from its level on.
pub record Logger : Type 0 where
  pub level : Level

-- `New`
unfoldable pub new : String → Logger
unfolding parse_level
new level = record { level = parse_level level }

-- The numbers of log/slog are -4, 0, 4 and 8; only the least of them writes messages for debugging.
abbrev writes_debug : Level → Bool
writes_debug debug = true
writes_debug _ = false

-- `DebugEnabled`; none is nil.
unfoldable pub debug_enabled : Option Logger → Bool
debug_enabled none = false
debug_enabled (some logger) = writes_debug logger.level

-- `shouldRedactKey`
unfoldable pub should_redact_key : String → Bool
unfolding trim_space lowers_to
should_redact_key key =
    let name = trim_space key in
    lowers_to name "password"
    || lowers_to name "wifi-password"
    || lowers_to name "wifi_password"
    || lowers_to name "secret"
    || lowers_to name "token"

-- `redactSecrets`
unfoldable mutual
  pub redact_secrets : Json → Json
  redact_secrets null = null
  redact_secrets (bool b) = bool b
  redact_secrets (num n) = num n
  redact_secrets (str s) = str s
  redact_secrets (arr xs) = arr (redact_items xs)
  redact_secrets (obj fs) = obj (redact_fields fs)

  pub redact_items : Items → Items
  redact_items nil = nil
  redact_items (cons x xs) = cons (redact_secrets x) (redact_items xs)

  pub redact_fields : Fields → Fields
  redact_fields end = end
  redact_fields (field key item fs) =
      field key (if should_redact_key key then str "<redacted>" else redact_secrets item)
        (redact_fields fs)

-- A key and its value in a map, which is printed in the order of the keys; a key that is in the
-- map already stands later in the text and counts.
unfoldable pub add_entry : String → Json → Fields → Fields
add_entry key v end = field key v end
add_entry key v (field k w fs) =
    if str_eq key k
    then field k w fs
    else if less key k
    then field key v (field k w fs)
    else field k w (add_entry key v fs)

-- `number` is what encoding/json prints for the float64 of a number's text, or `none` where the
-- number is out of its range.
module _ (number : String → Option String) where
  -- A text of JSON as `interface{}` values: an object becomes a map, a number a float64.
  unfoldable mutual
    unfolding add_entry

    pub as_value : Json → Json
    as_value null = null
    as_value (bool b) = bool b
    as_value (num n) = elim (number n) [ none ↦ null | some s ↦ num s ]
    as_value (str s) = str s
    as_value (arr xs) = arr (as_items xs)
    as_value (obj fs) = obj (as_map fs)

    pub as_items : Items → Items
    as_items nil = nil
    as_items (cons x xs) = cons (as_value x) (as_items xs)

    pub as_map : Fields → Fields
    as_map end = end
    as_map (field key v fs) = add_entry key (as_value v) (as_map fs)

  -- No number of the text is out of range.
  unfoldable mutual
    pub numbers_fit : Json → Bool
    numbers_fit null = true
    numbers_fit (bool b) = true
    numbers_fit (num n) = is_some (number n)
    numbers_fit (str s) = true
    numbers_fit (arr xs) = items_fit xs
    numbers_fit (obj fs) = fields_fit fs

    pub items_fit : Items → Bool
    items_fit nil = true
    items_fit (cons x xs) = numbers_fit x && items_fit xs

    pub fields_fit : Fields → Bool
    fields_fit end = true
    fields_fit (field key v fs) = numbers_fit v && fields_fit fs

  -- `JSONBytes`
  unfoldable pub json_bytes : {W : Type 0} → Host W → String → String
  unfolding as_value numbers_fit redact_secrets
  json_bytes host body = if is_empty body then "{}" else elim (host.parse_json body) [
    | err e ↦ body
    | ok j ↦ if numbers_fit j then host.print_json (redact_secrets (as_value j)) else body
  ]

  -- `JSONValue`, by what `json.Marshal(value)` returns
  unfoldable pub json_value : {W : Type 0} → Host W → Result String → String
  unfolding json_bytes message
  json_value host (err e) = concat "<marshal error: " (concat (message e) ">")
  json_value host (ok body) = json_bytes host body
