-- ===== src/Backend/Laws.antt =====
-- What the client of the console API returns, and for which failures it returns a
-- `*RequestError`.
use rook_servicechannel_agen.Common.{ℕ, String, false, none, ◌≡◌, ◌↔◌, ◌⊎◌, arith, eq_iff}
use rook_servicechannel_agen.Errors.{Operation, request_cause}
use rook_servicechannel_agen.Action.{Result, ok, of_result, wrap_error, >>=-eq-ok}
use rook_servicechannel_agen.Json.{Json}
use rook_servicechannel_agen.Host.{Host, HttpRequest, HttpResponse}
use rook_servicechannel_agen.Backend.Contract.{
  SupportSession, no_session, is_blank, validate_session, path,
}
use rook_servicechannel_agen.Backend.Client.{
  Client, Response, session_response, status_ok, named, receive, exchange, perform_json,
  new_request, read_response, begin_session_call,
}

-- A session is valid exactly if its status is open, active or closed and neither its PIN nor its
-- address is blank.
pub validate_session_iff :
    (s : SupportSession)
    → (validate_session s ≡ none) ↔ (
        ((s.status ≡ "open") ⊎ ((s.status ≡ "active") ⊎ (s.status ≡ "closed")))
        × (is_blank s.pin ≡ false)
        × (is_blank s.ip_address ≡ false))
unfolding validate_session
validate_session_iff s =
    ground (arith, eq_iff s.status "open", eq_iff s.status "active", eq_iff s.status "closed")

module _ {W : Type 0} (host : Host W) where
  read_response-ok :
      {A : Type 0} (resp : Response A) (op : Operation) (code : ℕ) (body : String) {a : A}
      → read_response host resp op code body ≡ ok a
      → (code ≡ status_ok) × ((a ≡ resp.zero_value) ⊎ (resp.validate a ≡ none))
  unfolding read_response
  read_response-ok resp op code body e = ground arith

  -- The request that a call sends.
  abbrev sent : Client → Operation → Json → Result HttpRequest
  sent c op body = new_request host op (host.endpoint c.base_url (path op)) (host.print_json body)

  receive-ok :
      {A : Type 0} (resp : Response A) (op : Operation) (answer : HttpResponse) (w w' : W) {a : A}
      → receive host resp op answer w ≡ (ok a, w')
      → (body : String) × (read_response host resp op answer.status_code body ≡ ok a)
  receive-ok resp op answer w w' e =
      let (body, u, read, rest) =
        >>=-eq-ok (wrap_error (named "read " op " response: ") (of_result answer.body))
          (λ b. of_result (read_response host resp op answer.status_code b)) w e in
      (body, ground arith)

  exchange-ok :
      {A : Type 0} (resp : Response A) (op : Operation) (req : HttpRequest) (w w' : W) {a : A}
      → exchange host resp op req w ≡ (ok a, w')
      → (answer : HttpResponse) × (body : String) × (read_response host resp op answer.status_code
            body
          ≡ ok a)
  exchange-ok resp op req w w' e =
      let (answer, u, got, rest) =
        >>=-eq-ok (wrap_error (request_cause op 0) (host.send req)) (receive host resp op) w e in
      let (body, read) = receive-ok resp op answer u w' rest in (answer, body, read)

  -- A response that a call returns is the zero value, for an empty body, or was validated.
  pub perform_json-ok :
      {A : Type 0} (resp : Response A) (c : Client) (op : Operation) (body : Json) (w w' : W)
      {a : A}
      → perform_json host resp c op body w ≡ (ok a, w')
      → (a ≡ resp.zero_value) ⊎ (resp.validate a ≡ none)
  unfolding perform_json
  perform_json-ok resp c op body w w' e =
      let (req, u, made, rest) =
        >>=-eq-ok (of_result (sent c op body)) (exchange host resp op) w e in
      let (answer, text, read) = exchange-ok resp op req u w' rest in
      (read_response-ok resp op answer.status_code text read).1

  -- A session that the backend's client returns is valid, or it is the empty session, which an
  -- empty response body gives.
  pub begin_session_call-valid :
      (c : Client) (w w' : W) {s : SupportSession}
      → begin_session_call host c w ≡ (ok s, w')
      → (s ≡ no_session) ⊎ (validate_session s ≡ none)
  unfolding begin_session_call
  begin_session_call-valid c w w' e = perform_json-ok session_response c _ _ w w' e
