-- ===== src/Backend/Failures.antt =====
-- Which failures of a call are a `*RequestError`: those that end the heartbeats.
use rook_servicechannel_agen.Common.{
  ℕ, String, Bool, true, false, not, Option, none, ◌≡◌, refl, sym, ap, ◌∙◌, inl, inr, arith, ◌==◌,
  Bool-cases,
}
use rook_servicechannel_agen.Errors.{Error, Operation, ping, request_cause, is_request}
use rook_servicechannel_agen.Action.{
  Result, ok, err, Result-cases, of_result, wrap_error, >>=_ok, check,
}
use rook_servicechannel_agen.Json.{Json}
use rook_servicechannel_agen.Host.{Host, HttpRequest, HttpResponse, PlainErrors}
use rook_servicechannel_agen.Backend.Contract.{path, encode_pin, validate_pin}
use rook_servicechannel_agen.Backend.Client.{
  Client, Response, ack_response, status_ok, receive, exchange, perform_json, new_request,
  read_response, status_error, unmarshal, heartbeat_call,
}

-- There is no answer, or its body was read and its status is not 200.
abbrev pub is_refused : Result HttpResponse → Bool
is_refused (err e) = true
is_refused (ok answer) = elim answer.body [
  | err e ↦ false
  | ok body ↦ not (answer.status_code == 200)
]

-- The call fails with a `*RequestError`.
abbrev pub fails_by_request : {A : Type 0} → Result A → Bool
fails_by_request (ok _) = false
fails_by_request (err e) = is_request e

module _ {W : Type 0} (host : Host W) where
  read_response_refused :
      {A : Type 0} (resp : Response A) (op : Operation) (code : ℕ) (body : String)
      → (code == status_ok) ≡ false
      → read_response host resp op code body ≡ err (status_error host op code body)
  unfolding read_response
  read_response_refused resp op code body h = ground arith

  status_error-is_request :
      (op : Operation) (code : ℕ) (body : String)
      → is_request (status_error host op code body) ≡ true
  unfolding status_error is_request
  status_error-is_request op code body = ground arith

  receive-answered :
      (op : Operation) (answer : HttpResponse) (r : Result String) (u w' : W)
      → answer.body ≡ r
      → receive host ack_response op answer u ≡ (ok tt, w')
      → is_refused (ok answer) ≡ false
  receive-answered op answer (err x) u w' b h = ground arith
  receive-answered op answer (ok body) u w' b h =
      elim (Bool-cases (answer.status_code == status_ok)) [
        | inl same ↦ rw (b, same) refl
        | inr other ↦
            let refused = read_response_refused ack_response op answer.status_code body other in
            ground (arith, refused)
      ]

  -- An exchange that succeeds was answered, with the status 200.
  exchange-answered :
      (op : Operation) (req : HttpRequest) (w w' : W) (p : Result HttpResponse × W)
      → host.send req w ≡ p
      → exchange host ack_response op req w ≡ (ok tt, w')
      → is_refused p.0 ≡ false
  exchange-answered op req w w' (err x, u) c h = ground arith
  exchange-answered op req w w' (ok answer, u) c h =
      receive-answered op answer answer.body u w' refl (
        sym (
          >>=_ok (wrap_error (request_cause op 0) (host.send req)) (receive host ack_response op) w
            (ground arith))
        ∙ h)

module _ {W : Type 0} (host : Host W) (plain : PlainErrors host) where
  unmarshal-plain :
      {A : Type 0} (decode : Json → Option A) (body : String) {e : Error}
      → unmarshal host decode body ≡ err e
      → is_request e ≡ false
  unfolding unmarshal
  unmarshal-plain decode body h = elim (Result-cases (host.parse_json body)) [
    | inl (j, parsed) ↦ ground (arith, plain.shape_plain body)
    | inr (x, failed) ↦ ground (arith, plain.parse_plain body failed)
  ]

  -- The result of a heartbeat, a response of which only the status counts.
  read_response-plain :
      (op : Operation) (code : ℕ) (body : String) {e : Error}
      → read_response host ack_response op code body ≡ err e
      → (code == status_ok) ≡ true
      → is_request e ≡ false
  unfolding read_response is_request
  read_response-plain op code body h same =
      elim (Result-cases (unmarshal host (ack_response.decode) body)) [
        | inl (a, fine) ↦ ground arith
        | inr (x, failed) ↦ ground (arith, unmarshal-plain ack_response.decode body failed)
      ]

  -- The error after the status and the body are known.
  read_response-is_request :
      (op : Operation) (code : ℕ) (body : String) {e : Error}
      → read_response host ack_response op code body ≡ err e
      → is_request e ≡ not (code == status_ok)
  read_response-is_request op code body {e} h = elim (Bool-cases (code == status_ok)) [
    | inl same ↦ rw same (read_response-plain op code body h same)
    | inr other ↦
        let refused = read_response_refused host ack_response op code body other in
        let eqn : status_error host op code body ≡ e = ground arith in
        rw other (rw eqn at (status_error-is_request host op code body))
  ]

  receive-is_request :
      (op : Operation) (answer : HttpResponse) (r : Result String) (u w' : W) {e : Error}
      → answer.body ≡ r
      → ((x : Error) → r ≡ err x → is_request x ≡ false)
      → receive host ack_response op answer u ≡ (err e, w')
      → is_request e ≡ is_refused (ok answer)
  unfolding is_request
  receive-is_request op answer (err x) u w' b p h = ground (arith, p x refl)
  receive-is_request op answer (ok body) u w' {e} b p h =
      let read : read_response host ack_response op answer.status_code body ≡ err e =
        ground arith in
      rw b (read_response-is_request op answer.status_code body read)

  exchange-is_request :
      (op : Operation) (req : HttpRequest) (w w' : W) (p : Result HttpResponse × W) {e : Error}
      → host.send req w ≡ p
      → exchange host ack_response op req w ≡ (err e, w')
      → is_request e ≡ is_refused p.0
  unfolding is_request
  exchange-is_request op req w w' (err x, u) c h = ground arith
  exchange-is_request op req w w' (ok answer, u) c h =
      receive-is_request op answer answer.body u w' refl
        (λ x failed. plain.body_plain req w u c failed)
        (sym (
            >>=_ok (wrap_error (request_cause op 0) (host.send req)) (receive host ack_response op)
              w (ground arith))
          ∙ h)

  -- A heartbeat is its exchange, once the PIN is checked and the request made.
  heartbeat_call-exchange :
      (c : Client) (pin : String) (req : HttpRequest) (w : W)
      → validate_pin pin ≡ none
      → new_request host ping
          (host.endpoint c.base_url (path ping))
          (host.print_json (encode_pin pin))
        ≡ ok req
      → heartbeat_call host c pin w ≡ exchange host ack_response ping req w
  unfolding heartbeat_call perform_json
  heartbeat_call-exchange c pin req w v made =
      let call = perform_json host ack_response c ping (encode_pin pin) in
      >>=_ok (check (validate_pin pin)) (λ _. call) w (ap (λ o. check o w) v)
      ∙ >>=_ok (of_result (new_request host ping _ _)) (exchange host ack_response ping) w
          (ap (λ r. (r, w)) made)

  heartbeat_error-is_request :
      (c : Client) (pin : String) (req : HttpRequest) (w w' : W) {e : Error}
      → validate_pin pin ≡ none
      → new_request host ping
          (host.endpoint c.base_url (path ping))
          (host.print_json (encode_pin pin))
        ≡ ok req
      → heartbeat_call host c pin w ≡ (err e, w')
      → is_request e ≡ is_refused (host.send req w).0
  heartbeat_error-is_request c pin req w w' {e} v made h =
      exchange-is_request ping req w w' (host.send req w) refl
        (sym (heartbeat_call-exchange c pin req w v made) ∙ h)

  heartbeat_ok-answered :
      (c : Client) (pin : String) (req : HttpRequest) (w w' : W)
      → validate_pin pin ≡ none
      → new_request host ping
          (host.endpoint c.base_url (path ping))
          (host.print_json (encode_pin pin))
        ≡ ok req
      → heartbeat_call host c pin w ≡ (ok tt, w')
      → is_refused (host.send req w).0 ≡ false
  heartbeat_ok-answered c pin req w w' v made h =
      exchange-answered host ping req w w' (host.send req w) refl
        (sym (heartbeat_call-exchange c pin req w v made) ∙ h)

  heartbeat_result :
      (c : Client) (pin : String) (req : HttpRequest) (w : W) (p : Result (Unit {0}) × W)
      → validate_pin pin ≡ none
      → new_request host ping
          (host.endpoint c.base_url (path ping))
          (host.print_json (encode_pin pin))
        ≡ ok req
      → heartbeat_call host c pin w ≡ p
      → fails_by_request p.0 ≡ is_refused (host.send req w).0
  heartbeat_result c pin req w (ok tt, w') v made h =
      sym (heartbeat_ok-answered c pin req w w' v made h)
  heartbeat_result c pin req w (err e, w') v made h =
      heartbeat_error-is_request c pin req w w' v made h

  -- Where the errors of the JSON, HTTP and io packages are no `*RequestError`: a heartbeat for a
  -- PIN that is not blank, for which a request could be made, fails with a `*RequestError` exactly
  -- if there was no answer, or the answer was read and its status was not 200; in every other case
  -- it succeeds or fails with another error.
  pub heartbeat_call-is_request :
      (c : Client) (pin : String) (req : HttpRequest) (w : W)
      → validate_pin pin ≡ none
      → new_request host ping
          (host.endpoint c.base_url (path ping))
          (host.print_json (encode_pin pin))
        ≡ ok req
      → fails_by_request (heartbeat_call host c pin w).0 ≡ is_refused (host.send req w).0
  heartbeat_call-is_request c pin req w v made =
      heartbeat_result c pin req w (heartbeat_call host c pin w) v made refl
