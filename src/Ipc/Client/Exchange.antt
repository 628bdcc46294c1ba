-- ===== src/Ipc/Client/Exchange.antt =====
-- A call of internal/ipc/client.go that internal/ipc/server.go answers.
use rook_servicechannel_agen.Common.{String, Bool, none, some, ◌≡◌, refl, ap, ◌∙◌, eq_iff}
use rook_servicechannel_agen.Errors.{Error}
use rook_servicechannel_agen.Host.{Host}
use rook_servicechannel_agen.Runtime.State.{Agent}
use rook_servicechannel_agen.Ipc.Contract.{Request}
use rook_servicechannel_agen.Ipc.Wire.{encode_response}
use rook_servicechannel_agen.Ipc.Server.{handle_request}
use rook_servicechannel_agen.Ipc.Server.Replies.{handle_request-Answers}
use rook_servicechannel_agen.Ipc.Client.{
  answered, Client, dialed, call_id, find, register, receive, deliver,
}
use rook_servicechannel_agen.Ipc.Client.Steps.{Step, Reach}
use rook_servicechannel_agen.Ipc.Client.Calls.{receive-answered}
use rook_servicechannel_agen.Ipc.Client.RoundTrip.{raw_response, read_json-encode_response}

find-register : (s : Client) → find (call_id s.calls) (register s).pending ≡ some s.calls
unfolding register
find-register s = let self = (eq_iff (call_id s.calls) (call_id s.calls)).1 refl in rw self refl

in_hand-register : (s : Client) → (register s).in_hand ≡ s.in_hand
unfolding register
in_hand-register s = refl

module _ {W : Type 0} (host : Host W) where
  -- A client in any state that a new connection comes to, whose reading goroutine holds no response,
  -- makes a call. If the server handles a request with the id of the call, in whatever state it
  -- is and whatever the host does, then its response, read and delivered by the client, is what the
  -- call gets: with its action, its success, its payload and its error's message.
  pub register-answered :
      {s : Client} (first : Bool) (shape_error : String → Error) (req : Request) (a : Agent W)
      → Reach dialed s
      → s.in_hand ≡ none
      → req.id ≡ call_id s.calls
      → let r = (handle_request host req a).0.response in
        (t : Client) × (u : Client) × (receive first shape_error (encode_response r) (register s)
          ≡ some t)
        × (deliver t ≡ some u)
        × (u.channels s.calls ≡ answered (raw_response r))
  register-answered {s} first shape_error req a reach idle named =
      let r = (handle_request host req a).0.response in
      let same_id : r.id ≡ call_id s.calls = (handle_request-Answers host req a).same_id ∙ named in
      let known = ap (λ id. find id (register s).pending) same_id ∙ find-register s in
      let (t, u, got, sent, has, _) =
        receive-answered s.calls first shape_error (encode_response r) (raw_response r)
          (Reach.next reach (Step.call refl)) (in_hand-register s ∙ idle) known
          (read_json-encode_response shape_error r) in
      (t, u, got, sent, has)
