-- ===== src/Ipc/Service.antt =====
-- internal/ipc/server.go: the service that joins the runtime's agent and the table of clients. A
-- request is handled, then answered; an event of the runtime is passed on to the clients while the call
-- that emits it runs.
pub mod Laws
pub mod Listen
pub mod Closing
pub mod Connection
use rook_servicechannel_agen.Common.{
  ℕ, Option, none, some, List, [], ◌∷◌, ◌==◌, if◌then◌else◌, added,
}
use rook_servicechannel_agen.Action.{Result, ok, err, Action as Call}
use rook_servicechannel_agen.Host.{Host}
use rook_servicechannel_agen.Runtime.State
use rook_servicechannel_agen.Runtime.State.{Agent}
use rook_servicechannel_agen.Ipc.Contract.{Request, Event, Response}
use rook_servicechannel_agen.Ipc.Reply.{Reply}
use rook_servicechannel_agen.Ipc.Server.{handle_request, handle_runtime_event}
use rook_servicechannel_agen.Ipc.Clients.{Clients, broadcast, send_response}

-- `subscription` is the id under which the server's handler is subscribed.
pub record Service (W : Type 0) : Type 0 where
  pub agent : Agent W
  pub clients : Clients
  pub subscription : ℕ

-- One broadcast after another; `none` is a panic.
unfoldable pub broadcast_all : List Event → Clients → Option Clients
unfolding broadcast
broadcast_all [] s = some s
broadcast_all (e ∷ es) s = elim (broadcast e s) [ none ↦ none | some t ↦ broadcast_all es t ]

-- The events of the calls that are for the handler with an id.
abbrev pub calls_of : ℕ → List (ℕ × State.Event) → List State.Event
calls_of id [] = []
calls_of id ((j, e) ∷ calls) = let rest = calls_of id calls in if j == id then e ∷ rest else rest

-- `client.outbound <- response`, as soon as there is room, and the broadcasts of the events.
unfoldable pub answer_request : ℕ → Reply → Clients → Option Clients
unfolding broadcast_all
answer_request id reply s = elim (send_response id reply.response s) [
  | none ↦ none
  | some t ↦ broadcast_all reply.events t
]

module _ {W : Type 0} (host : Host W) where
  -- What `handleRuntimeEvent` broadcasts; it returns no error.
  abbrev pub events_of : Result (List Event) → List Event
  events_of (ok events) = events
  events_of (err e) = []

  -- The calls of the server's handler, one after another.
  unfoldable pub pass_on : List State.Event → Service W → Option (Service W)
  unfolding broadcast_all
  pass_on [] v = some v
  pass_on (e ∷ es) v =
      let (events, agent) = handle_runtime_event host e v.agent in
      elim (broadcast_all (events_of events) v.clients) [
        | none ↦ none
        | some clients ↦ pass_on es (record v { agent = agent; clients = clients })
      ]

  -- A call of the manager, with the calls of the server's handler that it makes.
  unfoldable pub with_events :
      {A : Type 0} → Call (Agent W) A → Service W → Option (Result A × Service W)
  unfolding pass_on
  with_events m v =
      let (r, agent) = m v.agent in
      elim (pass_on (calls_of v.subscription (added v.agent.delivered agent.delivered))
        (record v { agent = agent })) [ none ↦ none | some v' ↦ some (r, v') ]

  -- The call of `handleRequest`, as one call.
  abbrev pub handling : Request → Call (Agent W) Reply
  handling req a = let (reply, b) = handle_request host req a in (ok reply, b)

  -- `handleClient` up to the answer.
  unfoldable pub take_request : Request → Service W → Option (Result Reply × Service W)
  unfolding with_events
  take_request req v = with_events (handling req) v
