-- ===== src/Ipc/Writer/Entered.antt =====
-- What the operations on the clients of internal/ipc/server.go put into the channel of one of them.
use mathlib.Core.List.{append-nil}
use rook_servicechannel_agen.Common.{
  ℕ, ◌<◌, ◌≤◌, Bool, true, false, ◌&&◌, some, List, [], ◌∷◌, ◌++◌, ◌≡◌, refl, inl, inr, arith, ap,
  sym, ◌∙◌, length, ltb, ◌==◌, if◌then◌else◌, Bool-cases,
}
use rook_servicechannel_agen.Ipc.Contract.{Event, Response}
use rook_servicechannel_agen.Ipc.Clients.{
  Message, response, event, Channel, capacity, Clients, set_channel, has, add_client, remove_client,
  close_all_clients, broadcast, take_message, send_response, taken, sent,
}
use rook_servicechannel_agen.Ipc.Clients.Laws.{IsValid, buffer-close}
use rook_servicechannel_agen.Ipc.Clients.Broadcast.{delivered, broadcast-delivered}
use rook_servicechannel_agen.Ipc.Clients.Steps.{Step, add, remove, close, tell, write, answer}

-- What an operation puts into the channel of a client: an answer to it, and an event if the client is
-- connected and its buffer has room.
abbrev pub entered : {s t : Clients} → ℕ → Step s t → List Message
entered {s} id (tell e _) =
    if has id s.table && ltb (length (s.channels id).buffer) capacity then event e ∷ [] else []
entered id (answer j r _ _) = if id == j then response r ∷ [] else []
entered id _ = []

-- The writer of this client is no part of the operation.
abbrev pub IsOther : {s t : Clients} → ℕ → Step s t → Type 0
IsOther id (write j _) = (id == j) ≡ false
IsOther id _ = Unit {0}

set_channel-other :
    (id j : ℕ) (ch : Channel) (channels : ℕ → Channel)
    → (id == j) ≡ false
    → set_channel j ch channels id ≡ channels id
set_channel-other id j ch channels e = rw e refl

taken-other :
    (id j : ℕ) (ms : List Message) (s : Clients)
    → (id == j) ≡ false
    → (taken j ms s).channels id ≡ s.channels id
taken-other id j [] s e = refl
taken-other id j (m ∷ rest) s e = rw e refl

offered-buffer :
    (e : Message) (b : Bool) (ms : List Message)
    → (if b then ms ++ e ∷ [] else ms) ≡ ms ++ (if b then e ∷ [] else [])
offered-buffer e true ms = refl
offered-buffer e false ms = sym (append-nil ms)

added_none : (ms : List Message) {ns : List Message} → ns ≡ ms → ns ≡ ms ++ []
added_none ms e = e ∙ sym (append-nil ms)

remove_client-entered :
    (id j : ℕ) (s : Clients)
    → (((remove_client j s).channels id).buffer ≡ (s.channels id).buffer)
      × ((remove_client j s).next_id ≡ s.next_id)
unfolding remove_client
remove_client-entered id j s = elim (Bool-cases (has j s.table)) [
  | inl e ↦ rw e (buffer-close (j ∷ []) s.channels id, refl)
  | inr e ↦ rw e (refl, refl)
]

sent-entered :
    (id j : ℕ) (r : Response) (s : Clients)
    → ((sent j r s).channels id).buffer
      ≡ (s.channels id).buffer ++ (if id == j then response r ∷ [] else [])
sent-entered id j r s = elim (Bool-cases (id == j)) [
  | inl e ↦ let same : id ≡ j = ground arith in rw (e, same) refl
  | inr e ↦ rw e (sym (append-nil (s.channels id).buffer))
]

delivered-entered :
    (id : ℕ) (e : Event) (ids : List ℕ) (channels : ℕ → Channel)
    → (delivered e ids channels id).buffer
      ≡ (channels id).buffer
        ++ (if has id ids && ltb (length (channels id).buffer) capacity then event e ∷ [] else [])
delivered-entered id e ids channels = elim (Bool-cases (has id ids)) [
  | inl h ↦ elim (Bool-cases (ltb (length (channels id).buffer) capacity)) [
    | inl b ↦ rw (h, b) refl
    | inr b ↦ rw (h, b) (sym (append-nil (channels id).buffer))
  ]
  | inr h ↦ rw h (sym (append-nil (channels id).buffer))
]

taken-next_id : (id : ℕ) (ms : List Message) (s : Clients) → (taken id ms s).next_id ≡ s.next_id
taken-next_id id [] s = refl
taken-next_id id (m ∷ rest) s = refl

broadcast-next_id : (e : Event) (s t : Clients) → broadcast e s ≡ some t → t.next_id ≡ s.next_id
unfolding broadcast
broadcast-next_id e s t h = ground arith

-- An operation of the others puts its messages at the end of the channel, and takes none from it.
pub Step-entered :
    (id : ℕ) {s t : Clients} (st : Step s t)
    → IsValid s
    → id < s.next_id
    → IsOther id st
    → ((t.channels id).buffer ≡ (s.channels id).buffer ++ entered id st) × (s.next_id ≤ t.next_id)
unfolding add_client close_all_clients take_message send_response
Step-entered id {s} {t} (add e) v h o =
    let other : (id == s.next_id) ≡ false = ground arith in
    rw e (
      added_none _ (ap (λ ch. ch.buffer) (set_channel-other id s.next_id _ s.channels other)),
      omega arith,
    )
Step-entered id {s} {t} (remove j e) v h o =
    let (same, next) = remove_client-entered id j s in
    rw e (added_none _ same, ground (arith, next))
Step-entered id {s} {t} (close e) v h o =
    rw e (added_none _ (buffer-close s.table s.channels id), omega arith)
Step-entered id {s} {t} (tell ev e) v h o =
    let (u, told, _, _, got) = broadcast-delivered ev s v in
    let eqn : u ≡ t = ground arith in
    let same =
      ap (λ c. (c.channels id).buffer) (sym eqn)
      ∙ ap (λ ch. ch.buffer) (got id)
      ∙ delivered-entered id ev s.table s.channels in
    let next = broadcast-next_id ev s t e in (same, ground (arith, next))
Step-entered id {s} {t} (write j e) v h o =
    let next = taken-next_id j (s.channels j).buffer s in
    rw e (
      added_none _ (ap (λ ch. ch.buffer) (taken-other id j (s.channels j).buffer s o)),
      ground (arith, next),
    )
Step-entered id {s} {t} (answer j r b e) v h o =
    let eqn : sent j r s ≡ t = ground arith in rw (sym eqn) (sent-entered id j r s, omega arith)

pub take_message-entered :
    (id : ℕ) (s : Clients) {m : Message} {rest : List Message}
    → (s.channels id).buffer ≡ m ∷ rest
    → (((take_message id s).channels id).buffer ≡ rest) × ((take_message id s).next_id ≡ s.next_id)
unfolding take_message
take_message-entered id s e =
    let self : (id == id) ≡ true = ground arith in rw (e, self) (refl, refl)
