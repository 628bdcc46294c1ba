-- ===== src/Network/Wait/Laws.antt =====
-- When a wait succeeds, and how often it checks.
use rook_servicechannel_agen.Common.{
  ℕ, zero, suc, Bool, true, false, ◌≡◌, ◌≤◌, arith, ◌⊎◌, inl, inr, ◌∙◌, ◌↔◌, ◌∙◌, ◌↔◌,
}
use rook_servicechannel_agen.Action.{ok, Action, ◌>>=◌, >>=_ok, >>=-eq-ok}
use rook_servicechannel_agen.Host.{Host}
use rook_servicechannel_agen.Network.Wait.{or_wait, wait_rounds, wait_for_condition}

-- The check, made again and again from a world while it says "not yet": after some rounds it
-- says "ready" and leaves the world as given.
pub data Ready {W : Type 0} (check : Action W Bool) : ℕ → W → W → Type 0 where
  now : {w w' : W} → check w ≡ (ok true, w') → Ready check zero w w'
  later :
      {n : ℕ} {w u w' : W} → check w ≡ (ok false, u) → Ready check n u w' → Ready check (suc n) w w'

-- The last round of a wait that succeeds.
pub Ready-last :
    {W : Type 0} {check : Action W Bool} {k : ℕ} {w w' : W}
    → Ready check k w w'
    → (u : W) × (check u ≡ (ok true, w'))
Ready-last (now {w} c) = (w, c)
Ready-last (later c r) = Ready-last r

-- The first check says "ready", or it says "not yet" and the wait goes on.
or_wait_inv :
    {W : Type 0} (check : Action W Bool) (go_on : Action W (Unit {0})) (ready : Bool) (w u w' : W)
    → check w ≡ (ok ready, u)
    → or_wait go_on ready u ≡ (ok tt, w')
    → (check w ≡ (ok true, w')) ⊎ ((v : W) × (check w ≡ (ok false, v)) × (go_on v ≡ (ok tt, w')))
or_wait_inv check go_on true w u w' c e = inl (cc)
or_wait_inv check go_on false w u w' c e = inr (u, c, e)

first_of_two :
    {W : Type 0} (check : Action W Bool) (go_on : Action W (Unit {0})) (w w' : W)
    → (check >>= or_wait go_on) w ≡ (ok tt, w')
    → (check w ≡ (ok true, w')) ⊎ ((v : W) × (check w ≡ (ok false, v)) × (go_on v ≡ (ok tt, w')))
first_of_two check go_on w w' e =
    let (ready, u, c, rest) = >>=-eq-ok check (or_wait go_on) w e in
    or_wait_inv check go_on ready w u w' c rest

module _ {W : Type 0} (host : Host W) (check : Action W Bool) where
  wait_rounds-Ready :
      (n : ℕ) (w w' : W)
      → wait_rounds host n check w ≡ (ok tt, w')
      → (k : ℕ) × (suc k ≤ n) × Ready check k w w'
  unfolding wait_rounds
  wait_rounds-Ready zero w w' e = cc
  wait_rounds-Ready (suc n) w w' e = elim (first_of_two check (wait_rounds host n check) w w' e) [
    | inl ready ↦ (0, omega arith, now ready)
    | inr (u, more, rest) ↦
        let (k, b, r) = wait_rounds-Ready n u w' rest in (suc k, omega arith, later more r)
  ]

  Ready-wait_rounds :
      (n : ℕ) {w w' : W} {k : ℕ}
      → suc k ≤ n
      → Ready check k w w'
      → wait_rounds host n check w ≡ (ok tt, w')
  unfolding wait_rounds
  Ready-wait_rounds zero b r = absurd (omega arith)
  Ready-wait_rounds (suc n) {w} b (now c) = >>=_ok check (or_wait (wait_rounds host n check)) w c
  Ready-wait_rounds (suc n) {w} b (later c r) =
      >>=_ok check (or_wait (wait_rounds host n check)) w c ∙ Ready-wait_rounds n (omega arith) r

  abbrev poll : Action W (Unit {0})
  poll u = wait_rounds host (host.ticks u) check u

  wait-Ready :
      (w w' : W)
      → wait_for_condition host check w ≡ (ok tt, w')
      → (k : ℕ) × (k ≤ host.ticks (check w).1) × Ready check k w w'
  unfolding wait_for_condition
  wait-Ready w w' e = elim (first_of_two check poll w w' e) [
    | inl ready ↦ (0, omega arith, now ready)
    | inr (u, more, rest) ↦
        let (k, b, r) = wait_rounds-Ready (host.ticks u) u w' rest in
        (suc k, rw more b, later more r)
  ]

  Ready-wait :
      {k : ℕ} {w w' : W}
      → Ready check k w w'
      → k ≤ host.ticks (check w).1
      → wait_for_condition host check w ≡ (ok tt, w')
  unfolding wait_for_condition
  Ready-wait {w} (now c) b = >>=_ok check (or_wait poll) w c
  Ready-wait {w} (later {u = u} c r) b =
      >>=_ok check (or_wait poll) w c ∙ Ready-wait_rounds (host.ticks u) (rw c at b) r

  -- A wait succeeds and leaves a world exactly if the check, repeated from the first world while
  -- it says "not yet", comes to say "ready" in that world after no more repetitions than there
  -- are ticks.
  pub wait_for_condition_iff :
      (w w' : W)
      → (wait_for_condition host check w ≡ (ok tt, w'))
        ↔ ((k : ℕ) × (k ≤ host.ticks (check w).1) × Ready check k w w')
  wait_for_condition_iff w w' = (wait-Ready w w', λ h. Ready-wait h.2 h.1)
