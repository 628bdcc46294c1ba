-- ===== src/Ipc/Client/Laws.antt =====
-- The calls of internal/ipc/client.go: which channels are waiting, and that every operation keeps it
-- so.
use rook_servicechannel_agen.Common.{
  ℕ, ◌+◌, ◌<◌, ◌≤◌, String, false, Option, none, some, List, [], ◌∷◌, ◌≡◌, inl, inr, arith, ap, sym,
  ◌∙◌, length, ◌==◌, str_eq, eq_iff, Bool-cases, All,
}
use rook_servicechannel_agen.Ipc.Client.Incoming.{RawResponse}
use rook_servicechannel_agen.Ipc.Client.{
  Channel, waiting, answered, Client, dialed, call_id, forget, find, set_channel, event_capacity,
}

-- A call that was made under its own id, and whose channel holds nothing yet.
abbrev pub IsWaiting : ℕ → (ℕ → Channel) → String → ℕ → Type 0
IsWaiting calls channels id n = (id ≡ call_id n) × (n < calls) × (channels n ≡ waiting)

abbrev pub IsPending : ℕ → (ℕ → Channel) → List (String × ℕ) → Type 0
IsPending calls channels ps = All (λ p. IsWaiting calls channels p.0 p.1) ps

abbrev pub IsAbsent : ℕ → List (String × ℕ) → Type 0
IsAbsent n ps = All (λ p. (p.1 == n) ≡ false) ps

-- The response in hand is for a call that is waiting, and no longer in the map.
abbrev pub IsInHand : ℕ → (ℕ → Channel) → List (String × ℕ) → Option (ℕ × RawResponse) → Type 0
IsInHand calls channels ps none = Unit {0}
IsInHand calls channels ps (some (n, r)) = IsWaiting calls channels r.id n × IsAbsent n ps

-- A response in a call's channel has the id of the call.
abbrev pub IsOwn : ℕ → Channel → Type 0
IsOwn n (answered r) = r.id ≡ call_id n
IsOwn n _ = Unit {0}

pub record IsValid (c : Client) : Type 0 where
  pub in_map : IsPending c.calls c.channels c.pending
  pub served : IsInHand c.calls c.channels c.pending c.in_hand
  pub own : (n : ℕ) → IsOwn n (c.channels n)
  pub events_bounded : length c.events ≤ event_capacity
  pub errors_bounded : length c.errors ≤ 1

pub dialed-IsValid : IsValid dialed
unfolding dialed
dialed-IsValid = record {
  in_map = tt;
  served = tt;
  own = λ n. tt;
  events_bounded = omega arith;
  errors_bounded = omega arith;
}

pub All-forget :
    (P : String × ℕ → Type 0) (id : String) (ps : List (String × ℕ))
    → All P ps
    → All P (forget id ps)
All-forget P id [] h = tt
All-forget P id ((i, n) ∷ ps) h = elim (Bool-cases (str_eq i id)) [
  | inl e ↦ rw e (All-forget P id ps h.1)
  | inr e ↦ rw e (h.0, All-forget P id ps h.1)
]

-- A channel that is set is not one of those of other calls.
pub IsPending-set :
    (calls n : ℕ) (ch : Channel) (channels : ℕ → Channel) (ps : List (String × ℕ))
    → IsAbsent n ps
    → IsPending calls channels ps
    → IsPending calls (set_channel n ch channels) ps
IsPending-set calls n ch channels [] a h = tt
IsPending-set calls n ch channels ((i, m) ∷ ps) a h =
    ((h.0.0, h.0.1, rw a.0 h.0.2), IsPending-set calls n ch channels ps a.1 h.1)

pub IsPending-IsAbsent :
    (calls : ℕ) (channels : ℕ → Channel) (ps : List (String × ℕ))
    → IsPending calls channels ps
    → IsAbsent calls ps
IsPending-IsAbsent calls channels [] h = tt
IsPending-IsAbsent calls channels ((i, m) ∷ ps) h =
    let below : m < calls = h.0.1 in (ground arith, IsPending-IsAbsent calls channels ps h.1)

pub IsPending-up :
    (calls : ℕ) (channels : ℕ → Channel) (ps : List (String × ℕ))
    → IsPending calls channels ps
    → IsPending (calls + 1) channels ps
IsPending-up calls channels [] h = tt
IsPending-up calls channels ((i, m) ∷ ps) h =
    let below : m < calls = h.0.1 in
    ((h.0.0, omega arith, h.0.2), IsPending-up calls channels ps h.1)

-- What `find` finds is a waiting call, and `forget` drops every entry of it.
pub find-IsWaiting :
    (calls : ℕ) (channels : ℕ → Channel) (id : String) (n : ℕ) (ps : List (String × ℕ))
    → IsPending calls channels ps
    → find id ps ≡ some n
    → IsWaiting calls channels id n
find-IsWaiting calls channels id n [] h e = ground arith
find-IsWaiting calls channels id n ((i, m) ∷ ps) h e = elim (Bool-cases (str_eq i id)) [
  | inl b ↦
      let same : i ≡ id = (eq_iff i id).0 b in
      let this : m ≡ n = ground arith in rw (same, this) at h.0
  | inr b ↦ find-IsWaiting calls channels id n ps h.1 (ground arith)
]

-- An entry under another id is of another call.
other_call :
    (calls : ℕ) (channels : ℕ → Channel) (id : String) (n : ℕ) (i : String) (m : ℕ)
    → id ≡ call_id n
    → IsWaiting calls channels i m
    → str_eq i id ≡ false
    → (m == n) ≡ false
other_call calls channels id n i m s w b = elim (Bool-cases (m == n)) [
  | inl e ↦
      let this : m ≡ n = ground arith in
      let same : i ≡ id = w.0 ∙ ap call_id this ∙ sym s in
      let equal = (eq_iff i id).1 same in ground arith
  | inr e ↦ e
]

pub forget-IsAbsent :
    (calls : ℕ) (channels : ℕ → Channel) (id : String) (n : ℕ) (ps : List (String × ℕ))
    → id ≡ call_id n
    → IsPending calls channels ps
    → IsAbsent n (forget id ps)
forget-IsAbsent calls channels id n [] s h = tt
forget-IsAbsent calls channels id n ((i, m) ∷ ps) s h = elim (Bool-cases (str_eq i id)) [
  | inl b ↦ rw b (forget-IsAbsent calls channels id n ps s h.1)
  | inr b ↦
      rw b
        (other_call calls channels id n i m s h.0 b, forget-IsAbsent calls channels id n ps s h.1)
]
