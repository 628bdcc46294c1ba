-- ===== src/Ipc/Client/Calls.antt =====
-- How a call of internal/ipc/client.go ends, and when it does not.
use rook_servicechannel_agen.Common.{
  ℕ, ◌<◌, String, Bool, true, false, none, some, List, [], ◌∷◌, ◌≡◌, refl, inl, inr, arith, ap, ◌∙◌,
  ◌⊎◌, ◌==◌, str_eq, Bool-cases,
}
use rook_servicechannel_agen.Errors.{Error}
use rook_servicechannel_agen.Json.{Json}
use rook_servicechannel_agen.Ipc.Client.Incoming.{RawResponse, response, read_json}
use rook_servicechannel_agen.Ipc.Client.{
  waiting, answered, Client, dialed, forget, find, set_channel, register, give_up, skip_call,
  take_call, receive_message, receive, deliver_hand, deliver, lose, lost, close, closed_once,
  read_event, read_error, call_returns,
}
use rook_servicechannel_agen.Ipc.Client.Laws.{find-IsWaiting}
use rook_servicechannel_agen.Ipc.Client.Steps.{
  Step, call, skip, leave, read, serve_call, lose_connection, take_event, take_error, close_client,
  Reach, here, next, Reach-IsValid,
}

receive-response :
    (first : Bool) (shape_error : String → Error) (j : Json) (r : RawResponse) (s : Client)
    → read_json shape_error j ≡ response r
    → receive first shape_error j s ≡ some (take_call r (find r.id s.pending) s)
unfolding receive
receive-response first shape_error j r s e = ap (λ m. receive_message first m s) e

find_forgotten : (id : String) (ps : List (String × ℕ)) → find id (forget id ps) ≡ none
find_forgotten id [] = refl
find_forgotten id ((i, n) ∷ ps) = elim (Bool-cases (str_eq i id)) [
  | inl b ↦ rw b (find_forgotten id ps)
  | inr b ↦ rw (b, b) (find_forgotten id ps)
]

-- Where the reading goroutine holds no response, a response that it reads for a call that is known
-- under the response's id is what that call gets, after one reading and one delivery, and the
-- call is not known any more: this from every state that a new connection comes to.
pub receive-answered :
    {s : Client} (n : ℕ) (first : Bool) (shape_error : String → Error) (j : Json) (r : RawResponse)
    → Reach dialed s
    → s.in_hand ≡ none
    → find r.id s.pending ≡ some n
    → read_json shape_error j ≡ response r
    → (t : Client) × (u : Client) × (receive first shape_error j s ≡ some t)
      × (deliver t ≡ some u)
      × (u.channels n ≡ answered r)
      × (find r.id u.pending ≡ none)
unfolding deliver
receive-answered {s} n first shape_error j r reach idle known is_response =
    let v = Reach-IsValid reach in
    let w = find-IsWaiting s.calls s.channels r.id n s.pending v.in_map known in
    let self : (n == n) ≡ true = ground arith in
    let t : Client = take_call r (some n) s in
    let u : Client = record t {
      channels = set_channel n (answered r) s.channels;
      in_hand = none;
    } in
    (
      t,
      u,
      receive-response first shape_error j r s is_response ∙ rw known refl,
      rw w.2 refl,
      rw self refl,
      find_forgotten r.id s.pending,
    )

-- The reading goroutine has returned and holds no response, and the call is still waiting unless
-- the client was closed.
abbrev IsStuck : ℕ → Client → Type 0
IsStuck n s =
    (s.reading ≡ false)
    × (s.in_hand ≡ none)
    × (n < s.calls)
    × ((s.is_closed ≡ true) ⊎ (s.channels n ≡ waiting))

IsStuck-register : (n : ℕ) (s : Client) → IsStuck n s → IsStuck n (register s)
unfolding register
IsStuck-register n s (off, idle, below, inl c) = (off, idle, omega arith, inl c)
IsStuck-register n s (off, idle, below, inr w) =
    let other : (n == s.calls) ≡ false = ground arith in (off, idle, omega arith, inr (rw other w))

IsStuck-deliver : (n : ℕ) (s t : Client) → deliver s ≡ some t → IsStuck n s → IsStuck n t
unfolding deliver
IsStuck-deliver n s t e h =
    let whole : deliver_hand s.in_hand s ≡ some s = rw h.1 refl in
    let same : s ≡ t = ground arith in rw same at h

IsStuck-closed :
    (n : ℕ) (b : Bool) (s : Client) → IsStuck n s → s.is_closed ≡ b → IsStuck n (closed_once b s)
IsStuck-closed n true s h e = h
IsStuck-closed n false s h e = (h.0, h.1, h.2, inl refl)

IsStuck-close : (n : ℕ) (s : Client) → IsStuck n s → IsStuck n (close s)
unfolding close
IsStuck-close n s h = IsStuck-closed n s.is_closed s h refl

IsStuck-Step : (n : ℕ) {s t : Client} → Step s t → IsStuck n s → IsStuck n t
unfolding skip_call give_up read_event read_error
IsStuck-Step n {s} (call e) h = rw e (IsStuck-register n s h)
IsStuck-Step n (skip e) h = rw e (h.0, h.1, omega arith, h.3)
IsStuck-Step n (leave m e) h = rw e h
IsStuck-Step n (read first f j on _ e) h = ground arith
IsStuck-Step n {s} {t} (serve_call e) h = IsStuck-deliver n s t e h
IsStuck-Step n (lose_connection x on _ e) h = ground arith
IsStuck-Step n (take_event e) h = rw e h
IsStuck-Step n (take_error e) h = rw e h
IsStuck-Step n {s} (close_client e) h = rw e (IsStuck-close n s h)

IsStuck-Reach : (n : ℕ) {s t : Client} → Reach s t → IsStuck n s → IsStuck n t
IsStuck-Reach n here h = h
IsStuck-Reach n (next r st) h = IsStuck-Step n st (IsStuck-Reach n r h)

IsStuck-lost :
    (n : ℕ) (b : Bool) (e : Error) (s : Client)
    → s.in_hand ≡ none
    → n < s.calls
    → s.channels n ≡ waiting
    → IsStuck n (lost b e s)
IsStuck-lost n true e s idle below w = (refl, idle, below, inr w)
IsStuck-lost n false e s idle below w = (refl, idle, below, inr w)

-- The channel of a call that is waiting when the reading goroutine, holding no response, ends with
-- an error of the connection: in every state that comes after, whatever else is done, until the
-- client is closed, it is open and holds nothing, and the `select` of the call returns exactly if
-- the context of the call is done.
pub lose-waiting :
    (n : ℕ) (e : Error) (s t : Client)
    → s.in_hand ≡ none
    → n < s.calls
    → s.channels n ≡ waiting
    → Reach (lose e s) t
    → t.is_closed ≡ false
    → (t.channels n ≡ waiting) × ((done : Bool) → call_returns done (t.channels n) ≡ done)
unfolding lose call_returns
lose-waiting n e s t idle below w reach still_open =
    elim (IsStuck-Reach n reach (IsStuck-lost n s.is_closed e s idle below w)).3 [
      | inl c ↦ ground arith
      | inr same ↦ (same, λ done. rw same refl)
    ]
