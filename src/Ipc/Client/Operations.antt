-- ===== src/Ipc/Client/Operations.antt =====
-- Every operation of internal/ipc/client.go keeps the client's state valid.
use rook_servicechannel_agen.Common.{
  ℕ, ◌+◌, ◌<◌, ◌≤◌, String, Bool, true, false, ◌&&◌, not, Option, none, some, List, [], ◌∷◌, ◌++◌,
  ◌≡◌, refl, inl, inr, arith, length, ◌==◌, ltb, Bool-cases,
}
use rook_servicechannel_agen.Errors.{Error, wrap}
use rook_servicechannel_agen.Json.{Json}
use rook_servicechannel_agen.Ipc.Client.Incoming.{
  RawResponse, RawEvent, Message, response, event, malformed, read_json,
}
use rook_servicechannel_agen.Ipc.Client.{
  Channel, waiting, Client, call_id, forget, find, set_channel, register, give_up, skip_call,
  report, event_capacity, take_call, receive_message, receive, lose, lost, read_event, read_error,
  rest_of,
}
use rook_servicechannel_agen.Ipc.Client.Laws.{
  IsInHand, IsOwn, IsValid, All-forget, IsPending-set, IsPending-IsAbsent, IsPending-up,
  find-IsWaiting, forget-IsAbsent,
}

length-snoc : {A : Type 0} (xs : List A) (x : A) → length (xs ++ x ∷ []) ≡ length xs + 1
length-snoc [] x = refl
length-snoc (y ∷ xs) x = ground (arith, length-snoc xs x)

length-rest_of : {A : Type 0} (n : ℕ) (xs : List A) → length xs ≤ n → length (rest_of xs) ≤ n
length-rest_of n [] h = h
length-rest_of n (x ∷ xs) h = omega arith

pub IsOwn-set :
    (n : ℕ) (ch : Channel) (channels : ℕ → Channel)
    → IsOwn n ch
    → ((j : ℕ) → IsOwn j (channels j))
    → (j : ℕ) → IsOwn j (set_channel n ch channels j)
IsOwn-set n ch channels h k j = elim (Bool-cases (j == n)) [
  | inl e ↦ let same : n ≡ j = ground arith in rw e (rw same at h)
  | inr e ↦ rw e (k j)
]

-- The response in hand is kept by what only makes the map smaller.
IsInHand-forget :
    (id : String) (calls : ℕ) (channels : ℕ → Channel) (ps : List (String × ℕ))
    (hand : Option (ℕ × RawResponse))
    → IsInHand calls channels ps hand
    → IsInHand calls channels (forget id ps) hand
IsInHand-forget id calls channels ps none h = tt
IsInHand-forget id calls channels ps (some (n, r)) h = (h.0, All-forget _ id ps h.1)

pub give_up-IsValid : (n : ℕ) (c : Client) → IsValid c → IsValid (give_up n c)
unfolding give_up
give_up-IsValid n c v = record {
  in_map = All-forget _ (call_id n) c.pending v.in_map;
  served = IsInHand-forget (call_id n) c.calls c.channels c.pending c.in_hand v.served;
  own = v.own;
  events_bounded = v.events_bounded;
  errors_bounded = v.errors_bounded;
}

IsInHand-register :
    (id : String) (calls : ℕ) (channels : ℕ → Channel) (ps : List (String × ℕ))
    (hand : Option (ℕ × RawResponse))
    → IsInHand calls channels ps hand
    → IsInHand (calls + 1) (set_channel calls waiting channels) ((id, calls) ∷ forget id ps) hand
IsInHand-register id calls channels ps none h = tt
IsInHand-register id calls channels ps (some (n, r)) h =
    let below : n < calls = h.0.1 in
    let other : (n == calls) ≡ false = ground arith in
    ((h.0.0, omega arith, rw other h.0.2), (ground arith, All-forget _ id ps h.1))

pub register-IsValid : (c : Client) → IsValid c → IsValid (register c)
unfolding register
register-IsValid c v =
    let self : (c.calls == c.calls) ≡ true = ground arith in
    let id = call_id c.calls in
    record {
      in_map = (
        (refl, omega arith, rw self refl),
        IsPending-set (c.calls + 1) c.calls waiting c.channels (forget id c.pending)
            (All-forget _ id c.pending (IsPending-IsAbsent c.calls c.channels c.pending v.in_map))
            (All-forget _ id c.pending (IsPending-up c.calls c.channels c.pending v.in_map)),
      );
      served = IsInHand-register id c.calls c.channels c.pending c.in_hand v.served;
      own = IsOwn-set c.calls waiting c.channels tt v.own;
      events_bounded = v.events_bounded;
      errors_bounded = v.errors_bounded;
    }

IsInHand-up :
    (calls : ℕ) (channels : ℕ → Channel) (ps : List (String × ℕ)) (hand : Option (ℕ × RawResponse))
    → IsInHand calls channels ps hand
    → IsInHand (calls + 1) channels ps hand
IsInHand-up calls channels ps none h = tt
IsInHand-up calls channels ps (some (n, r)) h =
    let below : n < calls = h.0.1 in ((h.0.0, omega arith, h.0.2), h.1)

pub skip_call-IsValid : (c : Client) → IsValid c → IsValid (skip_call c)
unfolding skip_call
skip_call-IsValid c v = record {
  in_map = IsPending-up c.calls c.channels c.pending v.in_map;
  served = IsInHand-up c.calls c.channels c.pending c.in_hand v.served;
  own = v.own;
  events_bounded = v.events_bounded;
  errors_bounded = v.errors_bounded;
}

-- The queues, and what is not about the calls, do not matter to them.
IsValid-queues :
    (c : Client) (events : List RawEvent) (errors : List Error) (reading : Bool)
    → length events ≤ event_capacity
    → length errors ≤ 1
    → IsValid c
    → IsValid (record c { events = events; errors = errors; reading = reading })
IsValid-queues c events errors reading h k v = record {
  in_map = v.in_map;
  served = v.served;
  own = v.own;
  events_bounded = h;
  errors_bounded = k;
}

errors-report : (e : Error) (c : Client) → length c.errors ≤ 1 → length (report e c).errors ≤ 1
errors-report e c h = ground (arith, length-snoc c.errors e)

report-IsValid :
    (e : Error) (b : Bool) (c : Client) → IsValid c → IsValid (record (report e c) { reading = b })
report-IsValid e b c v =
    IsValid-queues c c.events (report e c).errors b v.events_bounded
      (errors-report e c v.errors_bounded) v

lost-IsValid : (b : Bool) (e : Error) (c : Client) → IsValid c → IsValid (lost b e c)
lost-IsValid true e c v =
    IsValid-queues c c.events c.errors false v.events_bounded v.errors_bounded v
lost-IsValid false e c v = report-IsValid (wrap "read ipc message: " e "") false c v

pub lose-IsValid : (e : Error) (c : Client) → IsValid c → IsValid (lose e c)
unfolding lose
lose-IsValid e c v = lost-IsValid c.is_closed e c v

pub read_event-IsValid : (c : Client) → IsValid c → IsValid (read_event c)
unfolding read_event
read_event-IsValid c v =
    IsValid-queues c (rest_of c.events) c.errors c.reading
      (length-rest_of event_capacity c.events v.events_bounded) v.errors_bounded v

pub read_error-IsValid : (c : Client) → IsValid c → IsValid (read_error c)
unfolding read_error
read_error-IsValid c v =
    IsValid-queues c c.events (rest_of c.errors) c.reading v.events_bounded
      (length-rest_of 1 c.errors v.errors_bounded) v

take_call-IsValid :
    (r : RawResponse) (found : Option ℕ) (c : Client)
    → find r.id c.pending ≡ found
    → IsValid c
    → IsValid (take_call r found c)
take_call-IsValid r none c e v = v
take_call-IsValid r (some n) c e v =
    let w = find-IsWaiting c.calls c.channels r.id n c.pending v.in_map e in
    record {
      in_map = All-forget _ r.id c.pending v.in_map;
      served = (w, forget-IsAbsent c.calls c.channels r.id n c.pending w.0 v.in_map);
      own = v.own;
      events_bounded = v.events_bounded;
      errors_bounded = v.errors_bounded;
    }

receive_message-IsValid :
    (leave : Bool) (m : Message) (c t : Client)
    → receive_message leave m c ≡ some t
    → IsValid c
    → IsValid t
receive_message-IsValid leave (response r) c t e v =
    let same : take_call r (find r.id c.pending) c ≡ t = ground arith in
    let valid = take_call-IsValid r (find r.id c.pending) c refl v in rw same at valid
receive_message-IsValid leave (malformed x) c t e v =
    let same : report x c ≡ t = ground arith in
    let valid = report-IsValid x c.reading c v in rw same at valid
receive_message-IsValid leave (event x) c t e v =
    elim (Bool-cases (ltb (length c.events) event_capacity && not (c.is_closed && leave))) [
      | inl b ↦
          let queued : Client = record c { events = c.events ++ x ∷ [] } in
          let same : queued ≡ t = ground arith in
          let fits : length (c.events ++ x ∷ []) ≤ event_capacity =
            ground (arith, length-snoc c.events x) in
          let valid = IsValid-queues c queued.events c.errors c.reading fits v.errors_bounded v in
          rw same at valid
      | inr b ↦
          let ended : Client = record c { reading = false } in
          let same : ended ≡ t = ground arith in
          let valid =
            IsValid-queues c c.events c.errors false v.events_bounded v.errors_bounded v in
          rw same at valid
    ]

pub receive-IsValid :
    (leave : Bool) (shape_error : String → Error) (j : Json) (c t : Client)
    → receive leave shape_error j c ≡ some t
    → IsValid c
    → IsValid t
unfolding receive
receive-IsValid leave shape_error j c t e v =
    receive_message-IsValid leave (read_json shape_error j) c t e v
