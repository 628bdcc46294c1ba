-- ===== src/Ipc/Requests.antt =====
-- internal/ipc: the JSON of a request, as internal/ipc/client.go writes it and internal/ipc/server.go
-- reads it.
use rook_servicechannel_agen.Common.{
  String, true, Option, none, some, List, [], ◌∷◌, str_eq, if◌then◌else◌, ◌≡◌, refl, ap, ◌∙◌, arith,
}
use rook_servicechannel_agen.Json.{
  Json, str, obj, Fields, end, field, names_field, decode_string, decode_struct, decode_fields,
}
use rook_servicechannel_agen.Ipc.Contract.{
  Action, get_status, ping, scan_wifi, connect_wifi, disconnect_wifi, vpn_status, vpn_start,
  vpn_stop, cleanup, start_support, stop_support, get_pin, unsupported, action_name, is_supported,
  Request,
}

-- A payload, which is left out where the request has none.
abbrev payload_field : Option Json → Fields
payload_field none = end
payload_field (some j) = field "payload" j end

-- The request that `Request` of the client encodes, by its id, its action and the JSON of its payload.
unfoldable pub encode_request : String → Action → Option Json → Json
unfolding action_name
encode_request id action payload =
    obj (field "id" (str id) (field "action" (str (action_name action)) (payload_field payload)))

abbrev supported_actions : List Action
supported_actions =
    get_status ∷ ping ∷ scan_wifi ∷ connect_wifi ∷ disconnect_wifi ∷ vpn_status ∷ vpn_start
    ∷ vpn_stop ∷ cleanup ∷ start_support ∷ stop_support ∷ get_pin ∷ []

unfoldable pub find_action : String → List Action → Action
unfolding action_name
find_action s [] = unsupported s
find_action s (a ∷ r) = if str_eq s (action_name a) then a else find_action s r

find_action-action_name :
    (a : Action) → is_supported a ≡ true → find_action (action_name a) supported_actions ≡ a
unfolding find_action action_name
find_action-action_name (unsupported s) h = ground arith
find_action-action_name get_status h = refl
find_action-action_name ping h = refl
find_action-action_name scan_wifi h = refl
find_action-action_name connect_wifi h = refl
find_action-action_name disconnect_wifi h = refl
find_action-action_name vpn_status h = refl
find_action-action_name vpn_start h = refl
find_action-action_name vpn_stop h = refl
find_action-action_name cleanup h = refl
find_action-action_name start_support h = refl
find_action-action_name stop_support h = refl
find_action-action_name get_pin h = refl

-- `print` gives the text of a part of the request, which is what the payload is kept as.
module _ (print : Json → String) where
  abbrev set_request : String → Json → Request → Option Request
  set_request key v r =
      if names_field key "id"
      then elim (decode_string v r.id) [ none ↦ none | some t ↦ some (record r { id = t }) ]
      else if names_field key "action"
      then elim (decode_string v (action_name r.action)) [
        | none ↦ none
        | some t ↦ some (record r { action = find_action t supported_actions })
      ]
      else if names_field key "payload"
      then some (record r { payload = print v })
      else some r

  -- `decoder.Decode(&request)` of `handleClient`
  unfoldable pub decode_request : Json → Option Request
  unfolding decode_struct names_field decode_string find_action action_name
  decode_request j =
      decode_struct set_request j (record { id = ""; action = unsupported ""; payload = "" })

  abbrev pub text_of : Option Json → String
  text_of none = ""
  text_of (some j) = print j

  decode_payload :
      (payload : Option Json) (r : Request)
      → decode_fields set_request (payload_field payload) (record r { payload = "" })
        ≡ some (record r { payload = text_of payload })
  unfolding decode_fields names_field
  decode_payload none r = refl
  decode_payload (some j) r = refl

  -- The server decodes, from what the client encodes, a request with that id, that action and the
  -- text of that payload, or with the empty text where there is none; the action is one of the supported
  -- ones.
  pub decode_request-encode_request :
      (id : String) (action : Action) (payload : Option Json)
      → is_supported action ≡ true
      → decode_request (encode_request id action payload)
        ≡ some (record { id = id; action = action; payload = text_of payload })
  unfolding decode_request encode_request decode_fields
  decode_request-encode_request id action payload h =
      let with_action : Action → Request = λ a. record { id = id; action = a; payload = "" } in
      ap (λ a. decode_fields set_request (payload_field payload) (with_action a))
        (find_action-action_name action h)
      ∙ decode_payload payload (with_action action)
