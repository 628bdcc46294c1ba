-- ===== src/Ipc/Client/Delivery.antt =====
-- The ends of the calls of internal/ipc/client.go: a response is delivered, or the client is
-- closed.
use rook_servicechannel_agen.Common.{
  ℕ, String, Bool, true, false, Option, none, some, List, [], ◌∷◌, ◌≡◌, refl, arith, ◌∙◌, ◌==◌,
}
use rook_servicechannel_agen.Ipc.Client.Incoming.{RawResponse}
use rook_servicechannel_agen.Ipc.Client.{
  Channel, answered, closed, Client, set_channel, deliver_hand, deliver, close_pending, close,
  closed_once,
}
use rook_servicechannel_agen.Ipc.Client.Laws.{IsAbsent, IsInHand, IsOwn, IsValid, IsPending-set}
use rook_servicechannel_agen.Ipc.Client.Operations.{IsOwn-set}

deliver_hand-IsValid :
    (hand : Option (ℕ × RawResponse)) (c : Client)
    → IsInHand c.calls c.channels c.pending hand
    → IsValid c
    → (t : Client) × (deliver_hand hand c ≡ some t) × IsValid t
deliver_hand-IsValid none c h v = (c, refl, v)
deliver_hand-IsValid (some (n, r)) c h v = (
  record c { channels = set_channel n (answered r) c.channels; in_hand = none },
  rw h.0.2 refl,
  record {
    in_map = IsPending-set c.calls n (answered r) c.channels c.pending h.1 v.in_map;
    served = tt;
    own = IsOwn-set n (answered r) c.channels h.0.0 v.own;
    events_bounded = v.events_bounded;
    errors_bounded = v.errors_bounded;
  },
)

-- In a valid state a delivery does not panic, and leaves a valid state.
pub deliver-IsValid : (c : Client) → IsValid c → (t : Client) × (deliver c ≡ some t) × IsValid t
unfolding deliver
deliver-IsValid c v = deliver_hand-IsValid c.in_hand c v.served v

IsOwn-close_pending :
    (ps : List (String × ℕ)) (channels : ℕ → Channel)
    → ((j : ℕ) → IsOwn j (channels j))
    → (j : ℕ) → IsOwn j (close_pending ps channels j)
IsOwn-close_pending [] channels h j = h j
IsOwn-close_pending ((i, n) ∷ ps) channels h j =
    IsOwn-close_pending ps (set_channel n closed channels) (IsOwn-set n closed channels tt h) j

close_pending-IsAbsent :
    (n : ℕ) (ps : List (String × ℕ)) (channels : ℕ → Channel)
    → IsAbsent n ps
    → close_pending ps channels n ≡ channels n
close_pending-IsAbsent n [] channels a = refl
close_pending-IsAbsent n ((i, m) ∷ ps) channels a =
    let other : (n == m) ≡ false = ground arith in
    close_pending-IsAbsent n ps (set_channel m closed channels) a.1 ∙ rw other refl

IsInHand-close :
    (calls : ℕ) (channels : ℕ → Channel) (ps : List (String × ℕ)) (hand : Option (ℕ × RawResponse))
    → IsInHand calls channels ps hand
    → IsInHand calls (close_pending ps channels) [] hand
IsInHand-close calls channels ps none h = tt
IsInHand-close calls channels ps (some (n, r)) h =
    ((h.0.0, h.0.1, close_pending-IsAbsent n ps channels h.1 ∙ h.0.2), tt)

closed_once-IsValid : (b : Bool) (c : Client) → IsValid c → IsValid (closed_once b c)
closed_once-IsValid true c v = v
closed_once-IsValid false c v = record {
  in_map = tt;
  served = IsInHand-close c.calls c.channels c.pending c.in_hand v.served;
  own = IsOwn-close_pending c.pending c.channels v.own;
  events_bounded = v.events_bounded;
  errors_bounded = v.errors_bounded;
}

pub close-IsValid : (c : Client) → IsValid c → IsValid (close c)
unfolding close
close-IsValid c v = closed_once-IsValid c.is_closed c v
