-- ===== src/Ipc/Service/Connection.antt =====
-- internal/ipc/server.go: `handleClient`, from the connection of a client to its end.
use rook_servicechannel_agen.Common.{
  ℕ, ◌<◌, true, false, Option, none, some, List, [], ◌∷◌, ◌≡◌, refl, ap, ◌∙◌, arith, length, ◌==◌,
}
use rook_servicechannel_agen.Action.{Result, ok, err}
use rook_servicechannel_agen.Host.{Host}
use rook_servicechannel_agen.Ipc.Contract.{Request}
use rook_servicechannel_agen.Ipc.Reply.{Reply}
use rook_servicechannel_agen.Ipc.Server.{handle_request}
use rook_servicechannel_agen.Ipc.Clients.{Clients, has, add_client, remove_client}
use rook_servicechannel_agen.Ipc.Clients.Laws.{
  IsValid, has-append, has_dropped, add_client-IsValid, remove_client-IsValid,
}
use rook_servicechannel_agen.Ipc.Clients.Steps.{Reach, Reach-IsValid}
use rook_servicechannel_agen.Ipc.Service.{Service, answer_request, take_request}
use rook_servicechannel_agen.Ipc.Service.Closing.{close_all-all}
use rook_servicechannel_agen.Ipc.Service.Laws.{answer_request-answered, take_request-answered}

remove_client-gone :
    (id : ℕ) (s : Clients)
    → has id s.table ≡ true
    → (has id (remove_client id s).table ≡ false)
      × (((remove_client id s).channels id).closed ≡ true)
unfolding remove_client
remove_client-gone id s known =
    let self : has id (id ∷ []) ≡ true = ground arith in
    rw known (has_dropped id s.table, close_all-all (id ∷ []) s.channels id self)

module _ {W : Type 0} (host : Host W) (between : Service W → Service W) where
  -- The answer to a request that was handled; `between` is all that the other goroutines do before the
  -- send.
  abbrev answer_taken : ℕ → Result Reply × Service W → Option (Service W)
  answer_taken id (err e, u) = some u
  answer_taken id (ok reply, u) =
      let v = between u in
      elim (answer_request id reply v.clients) [
        | none ↦ none
        | some clients ↦ some (record v { clients = clients })
      ]

  -- One round of the loop of `handleClient`
  unfoldable pub serve_request : ℕ → Request → Service W → Option (Service W)
  unfolding take_request answer_request
  serve_request id req v = elim (take_request host req v) [
    | none ↦ none
    | some r ↦ answer_taken id r
  ]

  -- The loop, by what `decoder.Decode` gives in each round; it ends with the first error.
  unfoldable pub serve_requests : ℕ → List (Result Request) → Service W → Option (Service W)
  unfolding serve_request
  serve_requests id [] v = some v
  serve_requests id (err e ∷ decoded) v = some v
  serve_requests id (ok req ∷ decoded) v = elim (serve_request id req v) [
    | none ↦ none
    | some u ↦ serve_requests id decoded u
  ]

  abbrev removed : ℕ → Option (Service W) → Option (Service W)
  removed id none = none
  removed id (some u) = some (record u { clients = remove_client id u.clients })

  -- `handleClient`
  unfoldable pub handle_client : List (Result Request) → Service W → Option (Service W)
  unfolding add_client remove_client serve_requests
  handle_client decoded v =
      let (id, clients) = add_client v.clients in
      removed id (serve_requests id decoded (record v { clients = clients }))

  -- The other goroutines do to the clients what they can do, leave the client connected, and its writer
  -- makes room in the end.
  pub record Allows (id : ℕ) : Type 0 where
    pub reach : (v : Service W) → Reach v.clients (between v).clients
    pub stays :
        (v : Service W) → has id v.clients.table ≡ true → has id (between v).clients.table ≡ true
    pub room :
        (v : Service W) → IsValid v.clients → length ((between v).clients.channels id).buffer < 16

  -- What is kept from one request to the next.
  abbrev Served : ℕ → Service W → Type 0
  Served id v = IsValid v.clients × (has id v.clients.table ≡ true)

  serve_request-Served :
      (id : ℕ) (req : Request) (v : Service W)
      → Allows id
      → Served id v
      → (u : Service W) × (serve_request id req v ≡ some u) × Served id u
  unfolding serve_request
  serve_request-Served id req v allows (valid, there) =
      let reply = (handle_request host req v.agent).0 in
      let (u, taken, follows, _) = take_request-answered host id req v valid in
      let s = between u in
      let here : has id s.clients.table ≡ true =
        allows.stays u (ap (λ ids. has id ids) follows.table ∙ there) in
      let (t, rest, told, valid', same, _) =
        answer_request-answered id reply s.clients (Reach-IsValid (allows.reach u) follows.valid)
          here (allows.room u follows.valid) in
      let answered : answer_taken id (ok reply, u) ≡ some (record s { clients = t }) =
        ap
          (λ o. elim o as (λ _. Option (Service W)) [
            | none ↦ none
            | some clients ↦ some (record s { clients = clients })
          ])
          told in
      (
        record s { clients = t },
        ap (λ o. elim o as (λ _. Option (Service W)) [ none ↦ none | some r ↦ answer_taken id r ])
              taken
            ∙ answered,
        (valid', ap (λ ids. has id ids) same ∙ here),
      )

  serve_requests-Served :
      (id : ℕ) (decoded : List (Result Request)) (v : Service W)
      → Allows id
      → Served id v
      → (u : Service W) × (serve_requests id decoded v ≡ some u) × Served id u
  unfolding serve_requests
  serve_requests-Served id [] v allows h = (v, refl, h)
  serve_requests-Served id (err e ∷ decoded) v allows h = (v, refl, h)
  serve_requests-Served id (ok req ∷ decoded) v allows h =
      let (u, one, h') = serve_request-Served id req v allows h in
      let (t, rest, h'') = serve_requests-Served id decoded u allows h' in
      (
        t,
        ap
              (λ o. elim o as (λ _. Option (Service W)) [
                | none ↦ none
                | some x ↦ serve_requests id decoded x
              ])
              one
            ∙ rest,
        h'',
      )

  -- A client whose connection is served from its beginning to its end, in a valid state of the
  -- clients, while the other goroutines do no more to the clients than they can, leave this client
  -- connected, and its writer makes room for each answer: whatever is decoded and whatever the host
  -- does, nothing panics, and at the end the state is valid, the client is not in the table any
  -- more, and its channel is closed.
  pub handle_client-removed :
      (decoded : List (Result Request)) (v : Service W)
      → IsValid v.clients
      → Allows v.clients.next_id
      → let id = v.clients.next_id in
        (u : Service W) × (handle_client decoded v ≡ some u)
        × IsValid u.clients
        × (has id u.clients.table ≡ false)
        × ((u.clients.channels id).closed ≡ true)
  unfolding handle_client add_client
  handle_client-removed decoded v valid allows =
      let id = v.clients.next_id in
      let start = record v { clients = (add_client v.clients).1 } in
      let self : (id == id) ≡ true = ground arith in
      let there : has id start.clients.table ≡ true =
        has-append id id v.clients.table ∙ ground (arith, self) in
      let (u, ran, (valid', known)) =
        serve_requests-Served id decoded start allows (add_client-IsValid v.clients valid, there) in
      let gone = remove_client-gone id u.clients known in
      (
        record u { clients = remove_client id u.clients },
        ap (removed id) ran,
        remove_client-IsValid id u.clients valid',
        gone.0,
        gone.1,
      )
