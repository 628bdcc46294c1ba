-- ===== src/Ipc/Service/Closing.antt =====
-- The end of the connections of internal/ipc/server.go, with a request still being handled.
use rook_servicechannel_agen.Common.{
  ℕ, ◌<◌, true, none, some, List, [], ◌∷◌, ◌++◌, ◌≡◌, refl, ap, ◌∙◌, inl, inr, arith, Bool-cases,
  ◌==◌, All,
}
use rook_servicechannel_agen.Ipc.Contract.{Event, Response}
use rook_servicechannel_agen.Ipc.Reply.{Reply}
use rook_servicechannel_agen.Ipc.Clients.{
  Message, Channel, Clients, set_channel, has, close_all, add_client, remove_client,
  close_all_clients, broadcast, take_message, taken, sent, send_response, offered,
}
use rook_servicechannel_agen.Ipc.Clients.Laws.{IsValid, close_all_clients-IsValid}
use rook_servicechannel_agen.Ipc.Clients.Broadcast.{delivered, broadcast-delivered}
use rook_servicechannel_agen.Ipc.Clients.Steps.{Step, Reach, Reach-IsValid, closed-set}
use rook_servicechannel_agen.Ipc.Service.{answer_request}

-- The channel of an id that was handed out is closed.
pub record IsLost (id : ℕ) (s : Clients) : Type 0 where
  pub known : id < s.next_id
  pub closed : (s.channels id).closed ≡ true

close_all-closed :
    (ids : List ℕ) (channels : ℕ → Channel) (j : ℕ)
    → (channels j).closed ≡ true
    → (close_all ids channels j).closed ≡ true
close_all-closed [] channels j h = h
close_all-closed (id ∷ ids) channels j h =
    close_all-closed ids (set_channel id (record (channels id) { closed = true }) channels) j
      (ground arith)

pub close_all-all :
    (ids : List ℕ) (channels : ℕ → Channel) (j : ℕ)
    → has j ids ≡ true
    → (close_all ids channels j).closed ≡ true
close_all-all [] channels j h = ground arith
close_all-all (id ∷ ids) channels j h = elim (Bool-cases (j == id)) [
  | inl e ↦
      close_all-closed ids (set_channel id (record (channels id) { closed = true }) channels) j
        (rw e refl)
  | inr e ↦
      close_all-all ids (set_channel id (record (channels id) { closed = true }) channels) j
        (ground arith)
]

offered-closed : (e : Event) (ch : Channel) → (offered e ch).closed ≡ ch.closed
offered-closed e ch = ground arith

delivered-closed :
    (e : Event) (ids : List ℕ) (channels : ℕ → Channel) (j : ℕ)
    → (delivered e ids channels j).closed ≡ (channels j).closed
delivered-closed e ids channels j = ground (arith, offered-closed e (channels j))

taken-IsLost : (id j : ℕ) (ms : List Message) (s : Clients) → IsLost id s → IsLost id (taken j ms s)
taken-IsLost id j [] s l = l
taken-IsLost id j (m ∷ rest) s l = record {
  known = l.known;
  closed = closed-set j (record (s.channels j) { buffer = rest }) s.channels id refl ∙ l.closed;
}

add_client-IsLost : (id : ℕ) (s : Clients) → IsLost id s → IsLost id (add_client s).1
unfolding add_client
add_client-IsLost id s l = record {
  known = let k = l.known in omega arith;
  closed = let k = l.known in let c = l.closed in ground arith;
}

remove_client-IsLost : (id j : ℕ) (s : Clients) → IsLost id s → IsLost id (remove_client j s)
unfolding remove_client
remove_client-IsLost id j s l = elim (Bool-cases (has j s.table)) [
  | inl e ↦
      rw e (record { known = l.known; closed = close_all-closed (j ∷ []) s.channels id l.closed })
  | inr e ↦ rw e l
]

close_all_clients-IsLost : (id : ℕ) (s : Clients) → IsLost id s → IsLost id (close_all_clients s)
unfolding close_all_clients
close_all_clients-IsLost id s l = record {
  known = l.known;
  closed = close_all-closed s.table s.channels id l.closed;
}

broadcast-IsLost :
    (id : ℕ) (e : Event) (s t : Clients)
    → IsValid s
    → broadcast e s ≡ some t
    → IsLost id s
    → IsLost id t
unfolding broadcast
broadcast-IsLost id e s t v told l =
    let (u, told', _, _, got) = broadcast-delivered e s v in
    let same : u ≡ t = ground arith in
    let ids : t.next_id ≡ s.next_id = ground arith in
    let ends =
      ap (λ ch. ch.closed) (got id) ∙ delivered-closed e s.table s.channels id ∙ l.closed in
    record { known = rw ids l.known; closed = rw same at ends }

send_response-IsLost :
    (id j : ℕ) (r : Response) (s t : Clients)
    → send_response j r s ≡ some t
    → IsLost id s
    → IsLost id t
unfolding send_response
send_response-IsLost id j r s t e l =
    let same : sent j r s ≡ t = ground arith in
    let ends : IsLost id (sent j r s) = record {
      known = l.known;
      closed =
          closed-set j
            (record (s.channels j) { buffer = (s.channels j).buffer ++ Message.response r ∷ [] })
            s.channels id refl
          ∙ l.closed;
    } in
    rw same at ends

Step-IsLost : (id : ℕ) {s t : Clients} → Step s t → IsValid s → IsLost id s → IsLost id t
Step-IsLost id {s} (Step.add e) v l = rw e (add_client-IsLost id s l)
Step-IsLost id {s} (Step.remove j e) v l = rw e (remove_client-IsLost id j s l)
Step-IsLost id {s} (Step.close e) v l = rw e (close_all_clients-IsLost id s l)
Step-IsLost id {s} {t} (Step.tell ev e) v l = broadcast-IsLost id ev s t v e l
Step-IsLost id {s} (Step.write j e) v l =
    rw e (unfold take_message in taken-IsLost id j (s.channels j).buffer s l)
Step-IsLost id {s} {t} (Step.answer j r room e) v l = send_response-IsLost id j r s t e l

Reach-IsLost : (id : ℕ) {s t : Clients} → Reach s t → IsValid s → IsLost id s → IsLost id t
Reach-IsLost id Reach.here v l = l
Reach-IsLost id (Reach.next r st) v l =
    Step-IsLost id st (Reach-IsValid r v) (Reach-IsLost id r v l)

has-below : (id n : ℕ) (ids : List ℕ) → All (λ j. j < n) ids → has id ids ≡ true → id < n
has-below id n [] h k = ground arith
has-below id n (j ∷ ids) h k = elim (Bool-cases (id == j)) [
  | inl e ↦ let same : id ≡ j = ground arith in rw same h.0
  | inr e ↦ has-below id n ids h.1 (ground arith)
]

send_response-closed :
    (id : ℕ) (r : Response) (s : Clients)
    → (s.channels id).closed ≡ true
    → send_response id r s ≡ none
unfolding send_response
send_response-closed id r s h = ground arith

-- A request that is still being handled when the server closes the connections of its clients, that of the
-- request among them, panics when it is answered, whatever is done to the clients in between: it sends
-- on the channel that was closed.
pub answer_request-closed :
    (id : ℕ) (reply : Reply) {s t : Clients}
    → IsValid s
    → has id s.table ≡ true
    → Reach (close_all_clients s) t
    → answer_request id reply t ≡ none
unfolding answer_request
answer_request-closed id reply {s} {t} v there r =
    let l : IsLost id (close_all_clients s) =
      unfold close_all_clients in
      record {
        known = has-below id s.next_id s.table v.below there;
        closed = close_all-all s.table s.channels id there;
      } in
    let lost = Reach-IsLost id r (close_all_clients-IsValid s v) l in
    rw (answer_request, send_response-closed id reply.response t lost.closed) refl
