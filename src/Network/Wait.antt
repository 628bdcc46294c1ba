-- ===== src/Network/Wait.antt =====
-- `waitForCondition` of internal/network/network.go. The ticker and the context are the host's:
-- a wait receives some number of ticks before the context is done.
pub mod Laws
use rook_servicechannel_agen.Common.{ℕ, zero, suc, Bool, true, false}
use rook_servicechannel_agen.Action.{Action, pure, ◌>>=◌, err}
use rook_servicechannel_agen.Host.{Host}

-- What follows a check.
abbrev pub or_wait : {W : Type 0} → Action W (Unit {0}) → Bool → Action W (Unit {0})
or_wait go_on true = pure tt
or_wait go_on false = go_on

module _ {W : Type 0} (host : Host W) where
  -- The `for` loop, with the ticks that are still to come.
  unfoldable pub wait_rounds : ℕ → Action W Bool → Action W (Unit {0})
  wait_rounds zero check w = (err (host.context_error w), w)
  wait_rounds (suc n) check w = (check >>= or_wait (wait_rounds n check)) w

  unfoldable pub wait_for_condition : Action W Bool → Action W (Unit {0})
  wait_for_condition check = check >>= or_wait (λ w. wait_rounds (host.ticks w) check w)
