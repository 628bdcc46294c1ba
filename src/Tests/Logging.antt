-- ===== src/Tests/Logging.antt =====
-- Two bodies with different passwords in the log.
use rook_servicechannel_agen.Common.{
  String, true, Option, none, some, ◌≡◌, refl, str_eq, if◌then◌else◌,
}
use rook_servicechannel_agen.Text.{trim_space, lowers_to}
use rook_servicechannel_agen.Action.{ok}
use rook_servicechannel_agen.Json.{Json, str, obj, end, field}
use rook_servicechannel_agen.Host.{Host}
use rook_servicechannel_agen.Logging.{should_redact_key, numbers_fit, json_bytes}
use rook_servicechannel_agen.Logging.Laws.{both_obj, both_field, both_end, hidden, json_bytes-Alike}
use rook_servicechannel_agen.Ipc.Wire.{encode_connect}
use rook_servicechannel_agen.Ipc.Requests.{encode_request}
use rook_servicechannel_agen.Logging.Requests.{
  connect_request, IsPrinted, logged, json_value-password,
}
use rook_servicechannel_agen.Tests.Toy.{Disk, toy}

abbrev secret : String → Json
secret s = obj (field "password" (str s) end)

abbrev number : String → Option String
number s = if str_eq s "1e999" then none else some s

abbrev bodies : Host Disk
bodies = record toy {
  parse_json = λ s. ok (if str_eq s "one" then secret "hunter2" else secret "sesame");
}

same_key : should_redact_key "password" ≡ true
unfolding should_redact_key trim_space lowers_to
same_key = refl

fits : (s : String) → numbers_fit number (secret s) ≡ true
unfolding numbers_fit
fits s = refl

json_bytes-Alike_example : json_bytes number bodies "one" ≡ json_bytes number bodies "two"
json_bytes-Alike_example =
    json_bytes-Alike number bodies "one" "two" refl refl refl refl (fits "hunter2") (fits "sesame")
      (both_obj (both_field (hidden same_key) both_end))

-- A codec for the requests to connect to one network, whose text is the password.
abbrev password_of : Json → String
password_of (obj (field _ _ (field _ _ (field _ (obj (field _ _ (field _ (str s) end))) end)))) = s
password_of _ = "?"

abbrev request : String → Json
request password = connect_request "7" (record { ssid = "shop"; password = password })

abbrev codec : Host Disk
codec = record toy { print_json = password_of; parse_json = λ s. ok (request s) }

IsPrinted-one : IsPrinted number codec "7" (record { ssid = "shop"; password = "hunter2" })
unfolding encode_request encode_connect
IsPrinted-one = record { some_text = refl; read_back = refl }

IsPrinted-two : IsPrinted number codec "7" (record { ssid = "shop"; password = "sesame" })
unfolding encode_request encode_connect
IsPrinted-two = record { some_text = refl; read_back = refl }

json_value-password_example :
    logged number codec "7" (record { ssid = "shop"; password = "hunter2" })
    ≡ logged number codec "7" (record { ssid = "shop"; password = "sesame" })
json_value-password_example =
    json_value-password number codec "7" (record { ssid = "shop"; password = "hunter2" })
      (record { ssid = "shop"; password = "sesame" }) refl IsPrinted-one IsPrinted-two
