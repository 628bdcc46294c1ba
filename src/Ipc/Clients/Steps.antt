-- ===== src/Ipc/Clients/Steps.antt =====
-- The table of clients under every order of its operations.
use rook_servicechannel_agen.Common.{
  ℕ, ◌<◌, ◌≤◌, some, List, [], ◌∷◌, ◌++◌, ◌≡◌, refl, inl, inr, arith, ap, sym, ◌∙◌, length, ◌==◌,
  Bool-cases, ltb, ◌&&◌, if◌then◌else◌,
}
use rook_servicechannel_agen.Ipc.Contract.{Event, Response}
use rook_servicechannel_agen.Ipc.Clients.{
  Message, event, Channel, has, capacity, Clients, no_clients, set_channel, add_client,
  remove_client, close_all_clients, broadcast, take_message, send_response, taken, sent,
}
use rook_servicechannel_agen.Ipc.Clients.Laws.{
  IsValid, no_clients-IsValid, add_client-IsValid, remove_client-IsValid, close_all_clients-IsValid,
  bounded-set,
}
use rook_servicechannel_agen.Ipc.Clients.Broadcast.{
  delivered_lem, broadcast-delivered, length-snoc, IsOpen-same,
}

-- One operation, from its beginning to its end. An answer is sent once the buffer has room.
pub data Step (s t : Clients) : Type 0 where
  add : t ≡ (add_client s).1 → Step s t
  remove : (id : ℕ) → t ≡ remove_client id s → Step s t
  close : t ≡ close_all_clients s → Step s t
  tell : (e : Event) → broadcast e s ≡ some t → Step s t
  write : (id : ℕ) → t ≡ take_message id s → Step s t
  answer :
      (id : ℕ) (r : Response)
      → length (s.channels id).buffer < capacity
      → send_response id r s ≡ some t
      → Step s t

pub data Reach (s : Clients) : Clients → Type 0 where
  here : Reach s s
  next : {t u : Clients} → Reach s t → Step t u → Reach s u

pub closed-set :
    (id : ℕ) (ch : Channel) (channels : ℕ → Channel) (j : ℕ)
    → ch.closed ≡ (channels id).closed
    → (set_channel id ch channels j).closed ≡ (channels j).closed
closed-set id ch channels j h = elim (Bool-cases (j == id)) [
  | inl e ↦ let same : j ≡ id = ground arith in rw e (h ∙ ap (λ i. (channels i).closed) (sym same))
  | inr e ↦ rw e refl
]

-- A channel is set to one that is open as before, with a buffer within its capacity.
IsValid-set :
    (id : ℕ) (ch : Channel) (s : Clients)
    → ch.closed ≡ (s.channels id).closed
    → length ch.buffer ≤ capacity
    → IsValid s
    → IsValid (record s { channels = set_channel id ch s.channels })
IsValid-set id ch s c b v = record {
  below = v.below;
  distinct = v.distinct;
  open_channels =
      IsOpen-same s.channels (set_channel id ch s.channels) s.table
        (λ j. closed-set id ch s.channels j c) v.open_channels;
  bounded = λ j. bounded-set id ch s.channels j b (v.bounded j);
}

taken-IsValid :
    (id : ℕ) (ms : List Message) (s : Clients)
    → length ms ≤ capacity
    → IsValid s
    → IsValid (taken id ms s)
taken-IsValid id [] s b v = v
taken-IsValid id (m ∷ rest) s b v = IsValid-set id _ s refl (omega arith) v

take_message-IsValid : (id : ℕ) (s : Clients) → IsValid s → IsValid (take_message id s)
unfolding take_message
take_message-IsValid id s v = taken-IsValid id (s.channels id).buffer s (v.bounded id) v

pub send_response-IsValid :
    (id : ℕ) (r : Response) (s t : Clients)
    → length (s.channels id).buffer < capacity
    → send_response id r s ≡ some t
    → IsValid s
    → IsValid t
unfolding send_response
send_response-IsValid id r s t b e v =
    let fits = length-snoc (s.channels id).buffer (Message.response r) in
    let eqn : sent id r s ≡ t = ground arith in
    let open_still =
      IsValid-set id
        (record (s.channels id) { buffer = (s.channels id).buffer ++ Message.response r ∷ [] }) s
        refl (rw fits (omega arith)) v in
    rw eqn at open_still

broadcast-IsValid : (e : Event) (s t : Clients) → broadcast e s ≡ some t → IsValid s → IsValid t
broadcast-IsValid e s t h v =
    let (u, same, valid, _, _) = broadcast-delivered e s v in
    let eqn : u ≡ t = ground arith in rw eqn at valid

pub Step-IsValid : {s t : Clients} → Step s t → IsValid s → IsValid t
Step-IsValid {s} (add e) v = rw e (add_client-IsValid s v)
Step-IsValid {s} (remove id e) v = rw e (remove_client-IsValid id s v)
Step-IsValid {s} (close e) v = rw e (close_all_clients-IsValid s v)
Step-IsValid {s} {t} (tell ev e) v = broadcast-IsValid ev s t e v
Step-IsValid {s} (write id e) v = rw e (take_message-IsValid id s v)
Step-IsValid {s} {t} (answer id r b e) v = send_response-IsValid id r s t b e v

pub Reach-IsValid : {s t : Clients} → Reach s t → IsValid s → IsValid t
Reach-IsValid here v = v
Reach-IsValid (next r st) v = Step-IsValid st (Reach-IsValid r v)

-- From the start of the server, in whatever order clients come and go, are told events, are
-- answered and take their messages, one operation after another, no buffer ever holds more than
-- 16 messages, and a broadcast does not panic: it leaves the table as it was, the event stands at
-- the end of the buffer of each client in the table that held less than 16 messages, and every
-- other channel is as before.
pub Reach-broadcast :
    (e : Event) {s : Clients}
    → Reach no_clients s
    → ((j : ℕ) → length (s.channels j).buffer ≤ 16)
      × (t : Clients) × (broadcast e s ≡ some t)
      × (t.table ≡ s.table)
      × ((j : ℕ)
          → t.channels j ≡ (
              if has j s.table && ltb (length (s.channels j).buffer) 16
              then record (s.channels j) { buffer = (s.channels j).buffer ++ event e ∷ [] }
              else s.channels j))
Reach-broadcast e {s} r =
    let v = Reach-IsValid r no_clients-IsValid in
    let (t, told, _, same, got) = broadcast-delivered e s v in
    (v.bounded, t, told, same, λ j. got j ∙ delivered_lem e s.table s.channels j)
