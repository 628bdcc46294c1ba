-- ===== src/Ipc/Service/Laws.antt =====
-- A request of a client of internal/ipc/server.go, from its handling to its answer.
use rook_servicechannel_agen.Common.{
  ℕ, ◌<◌, true, false, some, List, [], ◌∷◌, ◌++◌, ◌≡◌, refl, ap, ◌∙◌, arith, inl, inr, Bool-cases,
  length, ltb, ◌==◌, added,
}
use rook_servicechannel_agen.Action.{ok}
use rook_servicechannel_agen.Host.{Host}
use rook_servicechannel_agen.Runtime.State
use rook_servicechannel_agen.Ipc.Contract.{Request, Event, Response}
use rook_servicechannel_agen.Ipc.Reply.{Reply}
use rook_servicechannel_agen.Ipc.Server.{handle_request, handle_runtime_event}
use rook_servicechannel_agen.Ipc.Clients.{
  Message, Channel, capacity, Clients, set_channel, has, offered, broadcast, send_response,
}
use rook_servicechannel_agen.Ipc.Clients.Laws.{IsValid, IsOpen}
use rook_servicechannel_agen.Ipc.Clients.Broadcast.{delivered, broadcast-delivered}
use rook_servicechannel_agen.Ipc.Clients.Steps.{Reach, Reach-IsValid, send_response-IsValid}
use rook_servicechannel_agen.Ipc.Service.{
  Service, broadcast_all, calls_of, answer_request, events_of, pass_on, with_events, take_request,
}

-- The messages of a buffer, and more behind them.
abbrev pub Extends : List Message → List Message → Type 0
Extends ms ns = (rest : List Message) × (ns ≡ ms ++ rest)

append_none : (ms : List Message) → ms ≡ ms ++ []
append_none [] = refl
append_none (m ∷ ms) = ap (λ l. m ∷ l) (append_none ms)

append_assoc : (xs ys zs : List Message) → (xs ++ ys) ++ zs ≡ xs ++ (ys ++ zs)
append_assoc [] ys zs = refl
append_assoc (x ∷ xs) ys zs = ap (λ l. x ∷ l) (append_assoc xs ys zs)

Extends-refl : (ms : List Message) → Extends ms ms
Extends-refl ms = ([], append_none ms)

Extends-trans : (ks ms ns : List Message) → Extends ks ms → Extends ms ns → Extends ks ns
Extends-trans ks ms ns (r, e) (q, f) = (r ++ q, f ∙ ap (λ l. l ++ q) e ∙ append_assoc ks r q)

Extends-offered : (e : Event) (ch : Channel) → Extends ch.buffer (offered e ch).buffer
Extends-offered e ch = elim (Bool-cases (ltb (length ch.buffer) capacity)) [
  | inl b ↦ rw b (Message.event e ∷ [], refl)
  | inr b ↦ rw b (Extends-refl ch.buffer)
]

Extends-delivered :
    (e : Event) (ids : List ℕ) (channels : ℕ → Channel) (j : ℕ)
    → Extends (channels j).buffer (delivered e ids channels j).buffer
Extends-delivered e ids channels j = elim (Bool-cases (has j ids)) [
  | inl b ↦ rw b (Extends-offered e (channels j))
  | inr b ↦ rw b (Extends-refl (channels j).buffer)
]

-- A valid state after more messages, with the same clients.
pub record Follows (s t : Clients) : Type 0 where
  pub valid : IsValid t
  pub table : t.table ≡ s.table
  pub more : (j : ℕ) → Extends (s.channels j).buffer (t.channels j).buffer

Follows-refl : (s : Clients) → IsValid s → Follows s s
Follows-refl s v = record {
  valid = v;
  table = refl;
  more = λ j. Extends-refl (s.channels j).buffer;
}

Follows-trans : (s t u : Clients) → Follows s t → Follows t u → Follows s u
Follows-trans s t u f g = record {
  valid = g.valid;
  table = g.table ∙ f.table;
  more = λ j.
      Extends-trans (s.channels j).buffer (t.channels j).buffer (u.channels j).buffer (f.more j)
        (g.more j);
}

broadcast-Follows :
    (e : Event) (s : Clients) → IsValid s → (t : Clients) × (broadcast e s ≡ some t) × Follows s t
broadcast-Follows e s v =
    let (t, told, valid, same, got) = broadcast-delivered e s v in
    (
      t,
      told,
      record {
        valid = valid;
        table = same;
        more = λ j. rw (got j) (Extends-delivered e s.table s.channels j);
      },
    )

broadcast_all-Follows :
    (es : List Event) (s : Clients)
    → IsValid s
    → (t : Clients) × (broadcast_all es s ≡ some t) × Follows s t
unfolding broadcast_all
broadcast_all-Follows [] s v = (s, refl, Follows-refl s v)
broadcast_all-Follows (e ∷ es) s v =
    let (t, told, f) = broadcast-Follows e s v in
    let (u, rest, g) = broadcast_all-Follows es t f.valid in
    (u, rw (broadcast_all, told) rest, Follows-trans s t u f g)

has-open :
    (id : ℕ) (channels : ℕ → Channel) (ids : List ℕ)
    → has id ids ≡ true
    → IsOpen channels ids
    → (channels id).closed ≡ false
has-open id channels [] h o = ground arith
has-open id channels (j ∷ ids) h o = elim (Bool-cases (id == j)) [
  | inl e ↦ let same : j ≡ id = ground arith in rw same at o.0
  | inr e ↦ has-open id channels ids (ground arith) o.1
]

-- The state after a response was sent.
abbrev responded : ℕ → Response → Clients → Clients
responded id r s = record s {
  channels =
      set_channel id
        (record (s.channels id) { buffer = (s.channels id).buffer ++ Message.response r ∷ [] })
        s.channels;
}

send_response-sent :
    (id : ℕ) (r : Response) (s : Clients)
    → (s.channels id).closed ≡ false
    → send_response id r s ≡ some (responded id r s)
unfolding send_response
send_response-sent id r s is_open = rw is_open refl

pub answer_request-answered :
    (id : ℕ) (reply : Reply) (s : Clients)
    → IsValid s
    → has id s.table ≡ true
    → length (s.channels id).buffer < capacity
    → (t : Clients) × (rest : List Message) × (answer_request id reply s ≡ some t)
      × IsValid t
      × (t.table ≡ s.table)
      × ((t.channels id).buffer ≡ (s.channels id).buffer ++ Message.response reply.response ∷ rest)
unfolding answer_request
answer_request-answered id reply s v known room =
    let r = reply.response in
    let u = responded id r s in
    let sent = send_response-sent id r s (has-open id s.channels s.table known v.open_channels) in
    let valid = send_response-IsValid id r s u room sent v in
    let (t, told, f) = broadcast_all-Follows reply.events u valid in
    let (rest, behind) = f.more id in
    let self : (id == id) ≡ true = ground arith in
    let now : (u.channels id).buffer ≡ (s.channels id).buffer ++ Message.response r ∷ [] =
      rw self refl in
    (
      t,
      rest,
      rw (answer_request, sent) told,
      f.valid,
      f.table,
      behind
          ∙ ap (λ l. l ++ rest) now
          ∙ append_assoc (s.channels id).buffer (Message.response r ∷ []) rest,
    )

module _ {W : Type 0} (host : Host W) where
  pass_on-Follows :
      (es : List State.Event) (v : Service W)
      → IsValid v.clients
      → (u : Service W) × (pass_on host es v ≡ some u) × Follows v.clients u.clients
  unfolding pass_on
  pass_on-Follows [] v valid = (v, refl, Follows-refl v.clients valid)
  pass_on-Follows (e ∷ es) v valid =
      let (events, agent) = handle_runtime_event host e v.agent in
      let (clients, told, f) = broadcast_all-Follows (events_of host events) v.clients valid in
      let next = record v { agent = agent; clients = clients } in
      let (u, rest, g) = pass_on-Follows es next f.valid in
      (u, rw (pass_on, told) rest, Follows-trans v.clients clients u.clients f g)

  -- In a valid state of the clients, handling a request of a client does not panic, whatever the host
  -- does: it gives the reply of the handler, keeps the clients valid and connected, and what it
  -- passes on of the runtime's events stands behind what was in the buffers. Then, after whatever
  -- the clients and their writers do, if the client is still connected and its buffer has room,
  -- answering does not panic and leaves a valid state, and the response stands behind what is
  -- in the client's buffer and before the request's own events.
  pub take_request-answered :
      (id : ℕ) (req : Request) (v : Service W)
      → IsValid v.clients
      → let reply = (handle_request host req v.agent).0 in
        (u : Service W) × (take_request host req v ≡ some (ok reply, u))
        × Follows v.clients u.clients
        × ((s : Clients)
            → Reach u.clients s
            → has id s.table ≡ true
            → length (s.channels id).buffer < 16
            → (t : Clients) × (rest : List Message) × (answer_request id reply s ≡ some t)
              × IsValid t
              × ((t.channels id).buffer
                  ≡ (s.channels id).buffer ++ Message.response reply.response ∷ rest))
  unfolding take_request with_events
  take_request-answered id req v valid =
      let (reply, agent) = handle_request host req v.agent in
      let calls = calls_of v.subscription (added v.agent.delivered agent.delivered) in
      let (u, passed, f) = pass_on-Follows calls (record v { agent = agent }) valid in
      (
        u,
        rw (take_request, with_events, passed) refl,
        f,
        λ s reach known room.
            (let (t, rest, told, valid', _, behind) =
                answer_request-answered id reply s (Reach-IsValid reach f.valid) known room in
              (t, rest, told, valid', behind)),
      )
