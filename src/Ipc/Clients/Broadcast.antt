-- ===== src/Ipc/Clients/Broadcast.antt =====
-- What a broadcast delivers, and when it panics.
use rook_servicechannel_agen.Common.{
  ℕ, ◌+◌, ◌≤◌, true, false, Option, none, some, List, [], ◌∷◌, ◌++◌, ◌≡◌, refl, inl, inr, arith, ap,
  ◌∙◌, length, ltb, ◌&&◌, ◌==◌, if◌then◌else◌, Bool-cases,
}
use rook_servicechannel_agen.Ipc.Contract.{Event}
use rook_servicechannel_agen.Ipc.Clients.{
  Message, event, Channel, capacity, Clients, set_channel, has, remove_client, offered, offer_all,
  broadcast,
}
use rook_servicechannel_agen.Ipc.Clients.Laws.{IsDistinct, IsOpen, IsValid, IsOpen-set}

-- The channels after an event was offered to some.
abbrev pub delivered : Event → List ℕ → (ℕ → Channel) → ℕ → Channel
delivered e ids channels j = if has j ids then offered e (channels j) else channels j

-- The first client's channel is open.
offer_all-next :
    (e : Event) (id : ℕ) (ids : List ℕ) (channels : ℕ → Channel)
    → (channels id).closed ≡ false
    → offer_all e (id ∷ ids) channels
      ≡ offer_all e ids (set_channel id (offered e (channels id)) channels)
unfolding offer_all
offer_all-next e id ids channels h =
    let next = set_channel id (offered e (channels id)) channels in
    ap
      (λ b. elim (if b then none else some next) as (λ _. Option (ℕ → Channel)) [
        | none ↦ none
        | some after ↦ offer_all e ids after
      ])
      h

delivered_next :
    (e : Event) (id j : ℕ) (ids : List ℕ) (channels : ℕ → Channel)
    → has id ids ≡ false
    → delivered e ids (set_channel id (offered e (channels id)) channels) j
      ≡ delivered e (id ∷ ids) channels j
delivered_next e id j ids channels n = elim (Bool-cases (j == id)) [
  | inl same ↦
      let eqn : j ≡ id = ground arith in
      let self : (id == id) ≡ true = ground arith in rw (eqn, n, self) refl
  | inr other ↦ rw other refl
]

-- Every channel that is open gets the event, or drops it if its buffer is full.
offer_all-delivered :
    (e : Event) (ids : List ℕ) (channels : ℕ → Channel)
    → IsDistinct ids
    → IsOpen channels ids
    → (after : ℕ → Channel) × (offer_all e ids channels ≡ some after)
      × ((j : ℕ) → after j ≡ delivered e ids channels j)
unfolding offer_all
offer_all-delivered e [] channels d o = (channels, refl, λ j. refl)
offer_all-delivered e (id ∷ ids) channels d o =
    let next = set_channel id (offered e (channels id)) channels in
    let (after, same, got) =
      offer_all-delivered e ids next d.1 (IsOpen-set id _ channels ids d.0 o.1) in
    (
      after,
      offer_all-next e id ids channels o.0 ∙ same,
      λ j. got j ∙ delivered_next e id j ids channels d.0,
    )

-- Spelled out: an event goes to the end of the buffer of a client in the table, if there is room.
pub delivered_lem :
    (e : Event) (ids : List ℕ) (channels : ℕ → Channel) (j : ℕ)
    → delivered e ids channels j ≡ (
        if has j ids && ltb (length (channels j).buffer) 16
        then record (channels j) { buffer = (channels j).buffer ++ event e ∷ [] }
        else channels j)
delivered_lem e ids channels j = elim (Bool-cases (has j ids)) [
  | inl h ↦ elim (Bool-cases (ltb (length (channels j).buffer) 16)) [
    | inl b ↦ rw (h, b) refl
    | inr b ↦ rw (h, b) refl
  ]
  | inr h ↦ rw h refl
]

pub length-snoc : (ms : List Message) (m : Message) → length (ms ++ m ∷ []) ≡ length ms + 1
length-snoc [] m = refl
length-snoc (x ∷ ms) m = ground (arith, length-snoc ms m)

offered-bounded :
    (e : Event) (ch : Channel)
    → length ch.buffer ≤ capacity
    → length (offered e ch).buffer ≤ capacity
offered-bounded e ch h = ground (arith, length-snoc ch.buffer (Message.event e))

delivered-bounded :
    (e : Event) (ids : List ℕ) (channels : ℕ → Channel) (j : ℕ)
    → length (channels j).buffer ≤ capacity
    → length (delivered e ids channels j).buffer ≤ capacity
delivered-bounded e ids channels j h = elim (Bool-cases (has j ids)) [
  | inl b ↦ rw b (offered-bounded e (channels j) h)
  | inr b ↦ rw b h
]

delivered-closed :
    (e : Event) (ids : List ℕ) (channels : ℕ → Channel) (j : ℕ)
    → (delivered e ids channels j).closed ≡ (channels j).closed
delivered-closed e ids channels j = ground arith

pub IsOpen-same :
    (f g : ℕ → Channel) (ids : List ℕ)
    → ((j : ℕ) → (g j).closed ≡ (f j).closed)
    → IsOpen f ids
    → IsOpen g ids
IsOpen-same f g [] h o = tt
IsOpen-same f g (j ∷ ids) h o = (h j ∙ o.0, IsOpen-same f g ids h o.1)

-- In a valid state a broadcast does not panic: it leaves a valid state and the table as it was,
-- the channel of each connected client gets the event, or drops it if its buffer is full, and
-- every other channel is as before.
pub broadcast-delivered :
    (e : Event) (s : Clients)
    → IsValid s
    → (t : Clients) × (broadcast e s ≡ some t)
      × IsValid t
      × (t.table ≡ s.table)
      × ((j : ℕ) → t.channels j ≡ delivered e s.table s.channels j)
unfolding broadcast
broadcast-delivered e s v =
    let (after, same, got) = offer_all-delivered e s.table s.channels v.distinct v.open_channels in
    (
      record s { channels = after },
      rw (broadcast, same) refl,
      record {
        below = v.below;
        distinct = v.distinct;
        open_channels =
            IsOpen-same s.channels after s.table
              (λ j. ap (λ ch. ch.closed) (got j) ∙ delivered-closed e s.table s.channels j)
              v.open_channels;
        bounded = λ j. rw (got j) (delivered-bounded e s.table s.channels j (v.bounded j));
      },
      refl,
      got,
    )

offer_all-closed :
    (e : Event) (id : ℕ) (ids : List ℕ) (channels : ℕ → Channel)
    → has id ids ≡ true
    → (channels id).closed ≡ true
    → offer_all e ids channels ≡ none
unfolding offer_all
offer_all-closed e id [] channels h c = ground arith
offer_all-closed e id (j ∷ ids) channels h c =
    let next = set_channel j (offered e (channels j)) channels in
    elim (Bool-cases (channels j).closed) [
      | inl b ↦ rw (offer_all, b) refl
      | inr b ↦
          let other : (id == j) ≡ false = ground arith in
          offer_all-next e j ids channels b
          ∙ offer_all-closed e id ids next (ground arith) (rw other c)
    ]

-- A broadcast that copied a client from the table before that client was removed panics: it sends
-- on the channel that the removal closed.
pub offer_all-removed :
    (e : Event) (id : ℕ) (s : Clients)
    → has id s.table ≡ true
    → offer_all e s.table (remove_client id s).channels ≡ none
unfolding remove_client
offer_all-removed e id s h = offer_all-closed e id s.table _ h (ground arith)
