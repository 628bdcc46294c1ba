-- ===== src/Ipc/Client/Steps.antt =====
-- The client of internal/ipc/client.go under every order of its operations.
use rook_servicechannel_agen.Common.{ℕ, ◌≤◌, String, Bool, true, none, some, ◌≡◌, arith, length}
use rook_servicechannel_agen.Errors.{Error}
use rook_servicechannel_agen.Json.{Json}
use rook_servicechannel_agen.Ipc.Client.Incoming.{RawResponse}
use rook_servicechannel_agen.Ipc.Client.{
  answered, Client, dialed, call_id, register, give_up, skip_call, receive, deliver, lose, close,
  read_event, read_error,
}
use rook_servicechannel_agen.Ipc.Client.Laws.{IsValid, dialed-IsValid}
use rook_servicechannel_agen.Ipc.Client.Operations.{
  register-IsValid, skip_call-IsValid, give_up-IsValid, receive-IsValid, lose-IsValid,
  read_event-IsValid, read_error-IsValid,
}
use rook_servicechannel_agen.Ipc.Client.Delivery.{deliver-IsValid, close-IsValid}

-- One operation of a caller, of the reading goroutine or of the one that closes. `readLoop` reads
-- on once it has served the response that it holds, and no more once it has returned.
pub data Step (s t : Client) : Type 0 where
  call : t ≡ register s → Step s t
  skip : t ≡ skip_call s → Step s t
  leave : (n : ℕ) → t ≡ give_up n s → Step s t
  read :
      (first : Bool) (shape_error : String → Error) (j : Json)
      → s.reading ≡ true
      → s.in_hand ≡ none
      → receive first shape_error j s ≡ some t
      → Step s t
  serve_call : deliver s ≡ some t → Step s t
  lose_connection : (e : Error) → s.reading ≡ true → s.in_hand ≡ none → t ≡ lose e s → Step s t
  take_event : t ≡ read_event s → Step s t
  take_error : t ≡ read_error s → Step s t
  close_client : t ≡ close s → Step s t

pub data Reach (s : Client) : Client → Type 0 where
  here : Reach s s
  next : {t u : Client} → Reach s t → Step t u → Reach s u

deliver-same : {s t : Client} → deliver s ≡ some t → IsValid s → IsValid t
deliver-same {s} {t} e v =
    let (u, same, valid) = deliver-IsValid s v in let eqn : u ≡ t = ground arith in rw eqn at valid

Step-IsValid : {s t : Client} → Step s t → IsValid s → IsValid t
Step-IsValid {s} (call e) v = rw e (register-IsValid s v)
Step-IsValid {s} (skip e) v = rw e (skip_call-IsValid s v)
Step-IsValid {s} (leave n e) v = rw e (give_up-IsValid n s v)
Step-IsValid {s} {t} (read first f j _ _ e) v = receive-IsValid first f j s t e v
Step-IsValid (serve_call e) v = deliver-same e v
Step-IsValid {s} (lose_connection x _ _ e) v = rw e (lose-IsValid x s v)
Step-IsValid {s} (take_event e) v = rw e (read_event-IsValid s v)
Step-IsValid {s} (take_error e) v = rw e (read_error-IsValid s v)
Step-IsValid {s} (close_client e) v = rw e (close-IsValid s v)

pub Reach-IsValid : {s : Client} → Reach dialed s → IsValid s
Reach-IsValid here = dialed-IsValid
Reach-IsValid (next r st) = Step-IsValid st (Reach-IsValid r)

-- From a new connection, in whatever order calls are made, given up, answered and closed, and
-- messages and errors come and are taken, one operation after another: the delivery of a response
-- does not panic, a call gets no response but one with its own id, and no more than 32 events and
-- one error are kept.
pub Reach-deliver :
    {s : Client}
    → Reach dialed s
    → ((t : Client) × (deliver s ≡ some t))
      × ((n : ℕ) (r : RawResponse) → s.channels n ≡ answered r → r.id ≡ call_id n)
      × (length s.events ≤ 32)
      × (length s.errors ≤ 1)
Reach-deliver {s} reach =
    let v = Reach-IsValid reach in
    let (t, same, _) = deliver-IsValid s v in
    ((t, same), λ n r e. (let own = v.own n in rw e at own), v.events_bounded, v.errors_bounded)
