-- ===== src/Ipc/Client/Incoming.antt =====
-- What `readLoop` of internal/ipc/client.go makes of one JSON value.
use Prim.Native.String.{◌++◌ as concat}
use rook_servicechannel_agen.Common.{String, Bool, false, Option, none, some, str_eq, if◌then◌else◌}
use rook_servicechannel_agen.Text.{quote}
use rook_servicechannel_agen.Errors.{Error, text, wrap}
use rook_servicechannel_agen.Json.{Json, null, bool, names_field, decode_string, decode_struct}

-- `RawResponse`; of its error only the message is read.
pub record RawResponse : Type 0 where
  pub id : String
  pub action : String
  pub success : Bool
  pub payload : Option Json
  pub message : Option String

pub record RawEvent : Type 0 where
  pub event : String
  pub payload : Option Json

pub data Message : Type 0 where
  response : RawResponse → Message
  event : RawEvent → Message
  malformed : Error → Message

-- A field of type bool.
unfoldable pub decode_bool : Json → Bool → Option Bool
decode_bool null old = some old
decode_bool (bool b) old = some b
decode_bool _ old = none

abbrev pub put {ℓ κ} : {A : Type ℓ} {B : Type κ} → Option A → (A → B) → Option B
put none set = none
put (some a) set = some (set a)

abbrev set_type : String → Json → String → Option String
set_type key v t = if names_field key "type" then decode_string v t else some t

-- A `*ErrorPayload`: null is nil. A code of another kind than text is an error too.
abbrev set_error : String → Json → String × String → Option (String × String)
set_error key v p =
    if names_field key "code"
    then put (decode_string v p.0) (λ t. (t, p.1))
    else if names_field key "message"
    then put (decode_string v p.1) (λ t. (p.0, t))
    else some p

abbrev old_message : Option String → String
old_message none = ""
old_message (some m) = m

abbrev decode_error : Json → Option String → Option (Option String)
decode_error null old = some none
decode_error j old = put (decode_struct set_error j ("", old_message old)) (λ p. some p.1)

abbrev set_response : String → Json → RawResponse → Option RawResponse
set_response key v r =
    if names_field key "id"
    then put (decode_string v r.id) (λ t. record r { id = t })
    else if names_field key "action"
    then put (decode_string v r.action) (λ t. record r { action = t })
    else if names_field key "success"
    then put (decode_bool v r.success) (λ b. record r { success = b })
    else if names_field key "payload"
    then some (record r { payload = some v })
    else if names_field key "error"
    then put (decode_error v r.message) (λ m. record r { message = m })
    else if names_field key "type"
    then put (decode_string v "") (λ t. r)
    else some r

abbrev set_event : String → Json → RawEvent → Option RawEvent
set_event key v e =
    if names_field key "event"
    then put (decode_string v e.event) (λ t. record e { event = t })
    else if names_field key "payload"
    then some (record e { payload = some v })
    else if names_field key "type"
    then put (decode_string v "") (λ t. e)
    else some e

abbrev no_response : RawResponse
no_response = record { id = ""; action = ""; success = false; payload = none; message = none }

abbrev of_kind {ℓ} : {A : Type ℓ} → String → Error → (A → Message) → Option A → Message
of_kind what e make none = malformed (wrap (concat "decode ipc " (concat what ": ")) e "")
of_kind what e make (some a) = make a

-- One JSON value, by its type; `shape_error` is the error of encoding/json for a value that does
-- not fit the struct of the given name.
unfoldable pub read_json : (String → Error) → Json → Message
unfolding decode_struct decode_string decode_bool names_field
read_json shape_error j = elim (decode_struct set_type j "") [
  | none ↦ malformed (wrap "decode ipc envelope: " (shape_error "envelope") "")
  | some kind ↦
      if str_eq kind "response"
      then of_kind "response" (shape_error "response") response
          (decode_struct set_response j no_response)
      else if str_eq kind "event"
      then of_kind "event" (shape_error "event") event
          (decode_struct set_event j (record { event = ""; payload = none }))
      else malformed (text (concat "unsupported ipc message type " (quote kind)))
]
