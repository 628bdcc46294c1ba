-- ===== src/Runtime/Heartbeat.antt =====
-- The heartbeat loops: at most one of them is live, and it is the one that the manager can cancel.
pub mod Steps
use rook_servicechannel_agen.Common.{
  ℕ, ◌+◌, ◌<◌, String, Bool, true, false, Option, none, some, List, [], ◌∷◌, ◌≡◌, ◌≢◌, refl, ◌⊎◌,
  inl, inr, arith, All, ◌==◌, if◌then◌else◌, Bool-cases, Option-cases,
}
use rook_servicechannel_agen.Errors.{Error, is_request}
use rook_servicechannel_agen.Action.{Result, ok, err, Action, >>=_ok}
use rook_servicechannel_agen.Host.{Host}
use rook_servicechannel_agen.Runtime.State.{
  Manager, Loop, Agent, Event, heartbeat_fatal, heartbeat_error, heartbeat_started, emit,
}
use rook_servicechannel_agen.Runtime.Manager.{
  start_heartbeat_loop, stop_heartbeat_loop, handle_heartbeat, handle_failure, loop_done,
  cancel_loop, end_loop, install, launch, stop_loop,
}

-- A loop is cancelled, or its cancel function is the manager's.
abbrev pub IsReached : Option ℕ → Loop → Type 0
IsReached cancel l = (l.cancelled ≡ true) ⊎ (cancel ≡ some l.id)

-- The ids are below a bound and distinct.
abbrev pub IsFresh : ℕ → List Loop → Type 0
IsFresh bound [] = Unit {0}
IsFresh bound (l ∷ r) = (l.id < bound) × All (λ m. m.id ≢ l.id) r × IsFresh bound r

-- Every loop that is not cancelled is reached by the manager's cancel function, and the loops'
-- ids are distinct and were handed out before.
pub record IsValid {W : Type 0} (a : Agent W) : Type 0 where
  pub reached : All (IsReached a.manager.heartbeat_cancel) a.loops
  pub fresh : IsFresh a.next_loop a.loops

-- After `cancel_loop`, what was reached by the id is cancelled.
IsReached-cancel :
    (id : ℕ) (r : List Loop) → All (IsReached (some id)) r → All (IsReached none) (cancel_loop id r)
IsReached-cancel id [] h = tt
IsReached-cancel id (l ∷ r) h = (ground arith, IsReached-cancel id r h.1)

ne-cancel :
    (id k : ℕ) (r : List Loop) → All (λ m. m.id ≢ k) r → All (λ m. m.id ≢ k) (cancel_loop id r)
ne-cancel id k [] h = tt
ne-cancel id k (l ∷ r) h = (ground arith, ne-cancel id k r h.1)

IsFresh-cancel : (id bound : ℕ) (r : List Loop) → IsFresh bound r → IsFresh bound (cancel_loop id r)
IsFresh-cancel id bound [] h = tt
IsFresh-cancel id bound (l ∷ r) h = (h.0, ne-cancel id l.id r h.1, IsFresh-cancel id bound r h.2)

pub All-end {ℓ} : (P : Loop → Type ℓ) (id : ℕ) (r : List Loop) → All P r → All P (end_loop id r)
All-end P id [] h = tt
All-end P id (l ∷ r) h = elim (Bool-cases (l.id == id)) [
  | inl e ↦ rw e (All-end P id r h.1)
  | inr e ↦ rw e (h.0, All-end P id r h.1)
]

IsFresh-end : (id bound : ℕ) (r : List Loop) → IsFresh bound r → IsFresh bound (end_loop id r)
IsFresh-end id bound [] h = tt
IsFresh-end id bound (l ∷ r) h = elim (Bool-cases (l.id == id)) [
  | inl e ↦ rw e (IsFresh-end id bound r h.2)
  | inr e ↦ rw e (h.0, All-end (λ m. m.id ≢ l.id) id r h.1, IsFresh-end id bound r h.2)
]

below_ne : (bound : ℕ) (r : List Loop) → IsFresh bound r → All (λ m. m.id ≢ bound) r
below_ne bound [] h = tt
below_ne bound (l ∷ r) h = (omega arith, below_ne bound r h.2)

IsFresh-up : (bound : ℕ) (r : List Loop) → IsFresh bound r → IsFresh (bound + 1) r
IsFresh-up bound [] h = tt
IsFresh-up bound (l ∷ r) h = (omega arith, h.1, IsFresh-up bound r h.2)

IsReached-more : (id : ℕ) (r : List Loop) → All (IsReached none) r → All (IsReached (some id)) r
IsReached-more id [] h = tt
IsReached-more id (l ∷ r) h = (ground arith, IsReached-more id r h.1)

module _ {W : Type 0} where
  stop_loop-IsReached :
      (cancel : Option ℕ) (a : Agent W)
      → a.manager.heartbeat_cancel ≡ cancel
      → All (IsReached cancel) a.loops
      → let b = (stop_loop cancel a).1 in
        (b.manager.heartbeat_cancel ≡ none) × All (IsReached none) b.loops
  stop_loop-IsReached none a e h = (e, h)
  stop_loop-IsReached (some id) a e h = (refl, IsReached-cancel id a.loops h)

  stop_loop-IsFresh :
      (cancel : Option ℕ) (a : Agent W)
      → IsFresh a.next_loop a.loops
      → let b = (stop_loop cancel a).1 in IsFresh b.next_loop b.loops
  stop_loop-IsFresh none a h = h
  stop_loop-IsFresh (some id) a h = IsFresh-cancel id a.next_loop a.loops h

  -- After a stop the manager has no cancel function and every loop is cancelled.
  pub stop_heartbeat_loop-silent :
      (a : Agent W)
      → IsValid a
      → let b = (stop_heartbeat_loop a).1 in
        (b.manager.heartbeat_cancel ≡ none)
        × All (IsReached none) b.loops
        × IsFresh b.next_loop b.loops
  unfolding stop_heartbeat_loop
  stop_heartbeat_loop-silent a v =
      let cancel = a.manager.heartbeat_cancel in
      let (gone, all) = stop_loop-IsReached cancel a refl v.reached in
      (gone, all, stop_loop-IsFresh cancel a v.fresh)

  stop_heartbeat_loop-IsValid : (a : Agent W) → IsValid a → IsValid (stop_heartbeat_loop a).1
  stop_heartbeat_loop-IsValid a v =
      let (gone, all, fresh) = stop_heartbeat_loop-silent a v in
      record { reached = rw gone all; fresh = fresh }

  -- A stop returns no error.
  stop_loop-ok :
      (cancel : Option ℕ) (a : Agent W) → stop_loop cancel a ≡ (ok tt, (stop_loop cancel a).1)
  stop_loop-ok none a = refl
  stop_loop-ok (some id) a = refl

  pub stop_heartbeat_loop-ok :
      (a : Agent W) → stop_heartbeat_loop a ≡ (ok tt, (stop_heartbeat_loop a).1)
  unfolding stop_heartbeat_loop
  stop_heartbeat_loop-ok a = stop_loop-ok a.manager.heartbeat_cancel a

  -- A start is a stop, then the launch of a new loop.
  pub start_heartbeat_loop-launch :
      (pin : String) (a : Agent W)
      → start_heartbeat_loop pin a ≡ install pin (stop_heartbeat_loop a).1
  unfolding start_heartbeat_loop
  start_heartbeat_loop-launch pin a =
      >>=_ok stop_heartbeat_loop (λ _. install pin) a (stop_heartbeat_loop-ok a)

  start_heartbeat_loop-IsValid :
      (pin : String) (a : Agent W) → IsValid a → IsValid (start_heartbeat_loop pin a).1
  start_heartbeat_loop-IsValid pin a v =
      let b = (stop_heartbeat_loop a).1 in
      let (gone, all, fresh) = stop_heartbeat_loop-silent a v in
      rw (start_heartbeat_loop-launch pin a) (record {
        reached = (inr refl, IsReached-more b.next_loop b.loops all);
        fresh =
            (omega arith, below_ne b.next_loop b.loops fresh, IsFresh-up b.next_loop b.loops fresh);
      })

  loop_done-IsValid : (l : Loop) (a : Agent W) → IsValid a → IsValid (loop_done l a).1
  unfolding loop_done
  loop_done-IsValid l a v = record {
    reached = All-end (IsReached a.manager.heartbeat_cancel) l.id a.loops v.reached;
    fresh = IsFresh-end l.id a.next_loop a.loops v.fresh;
  }

  abbrev after_event : Event → Agent W → Agent W
  after_event e a = (emit e a).1

  -- A failed heartbeat that is fatal: the event, the stop and the end of the goroutine.
  handle_failure-fatal :
      (l : Loop) (e : Error) (a : Agent W)
      → handle_failure true l e a
        ≡ loop_done l (stop_heartbeat_loop (after_event (heartbeat_fatal l.pin e) a)).1
  unfolding loop_done
  handle_failure-fatal l e a =
      let b = after_event (heartbeat_fatal l.pin e) a in
      >>=_ok stop_heartbeat_loop (λ _ a. (ok tt, record a { loops = end_loop l.id a.loops })) b
        (stop_heartbeat_loop-ok b)

  handle_failure-IsValid :
      (fatal : Bool) (l : Loop) (e : Error) (a : Agent W)
      → IsValid a
      → IsValid (handle_failure fatal l e a).1
  handle_failure-IsValid false l e a v = record { reached = v.reached; fresh = v.fresh }
  handle_failure-IsValid true l e a v =
      let b = after_event (heartbeat_fatal l.pin e) a in
      rw (handle_failure-fatal l e a) (
        loop_done-IsValid l (stop_heartbeat_loop b).1
          (stop_heartbeat_loop-IsValid b (record { reached = v.reached; fresh = v.fresh })))

  handle_heartbeat-IsValid :
      (l : Loop) (r : Result (Unit {0})) (a : Agent W)
      → IsValid a
      → IsValid (handle_heartbeat l r a).1
  unfolding handle_heartbeat
  handle_heartbeat-IsValid l (ok _) a v = v
  handle_heartbeat-IsValid l (err e) a v = handle_failure-IsValid (is_request e) l e a v
