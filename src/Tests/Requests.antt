-- ===== src/Tests/Requests.antt =====
-- Requests over the connection of the small service.
use rook_servicechannel_agen.Common.{String, some, ◌≡◌, refl}
use rook_servicechannel_agen.Json.{Json, str, obj, end, field}
use rook_servicechannel_agen.Ipc.Contract.{connect_wifi}
use rook_servicechannel_agen.Ipc.Requests.{
  encode_request, decode_request, text_of, decode_request-encode_request,
}

abbrev payload : Json
payload = obj (field "ssid" (str "shop") end)

abbrev print : Json → String
print j = "text"

decode_request-encode_request_example :
    decode_request print (encode_request "7" connect_wifi (some payload))
    ≡ some (record { id = "7"; action = connect_wifi; payload = text_of print (some payload) })
decode_request-encode_request_example =
    decode_request-encode_request print "7" connect_wifi (some payload) refl
