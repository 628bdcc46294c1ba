-- ===== src/Runtime/Heartbeat/Steps.antt =====
-- The heartbeat loops under every order of starts, stops, heartbeat results and other calls of the
-- manager, each of which runs to its end before the next one begins. Calls that overlap are in
-- Overlap.antt.
pub mod Overlap
use rook_servicechannel_agen.Common.{
  ℕ, suc, ◌≤◌, String, true, Option, none, some, List, [], ◌∷◌, ◌≡◌, ◌≢◌, refl, inl, inr, arith,
  All, if◌then◌else◌, Bool-cases, ap,
}
use rook_servicechannel_agen.Errors.{Error, is_request}
use rook_servicechannel_agen.Action.{Result, err}
use rook_servicechannel_agen.Runtime.State.{Loop, Agent, heartbeat_fatal}
use rook_servicechannel_agen.Runtime.Manager.{
  start_heartbeat_loop, stop_heartbeat_loop, handle_heartbeat, handle_failure, loop_done, end_loop,
}
use rook_servicechannel_agen.Runtime.Heartbeat.{
  IsReached, IsFresh, IsValid, start_heartbeat_loop-IsValid, stop_heartbeat_loop-IsValid,
  handle_heartbeat-IsValid, loop_done-IsValid, stop_heartbeat_loop-silent, handle_failure-fatal,
  start_heartbeat_loop-launch, after_event, All-end,
}

-- How many loops are not cancelled.
abbrev pub live : List Loop → ℕ
live [] = 0
live (l ∷ r) = if l.cancelled then live r else suc (live r)

pub live-none : (r : List Loop) → All (IsReached none) r → live r ≡ 0
live-none [] h = refl
live-none (l ∷ r) h = ground (arith, live-none r h.1)

-- Loops with other ids than the one that is reached are cancelled.
IsReached-others :
    (id : ℕ) (r : List Loop)
    → All (λ m. m.id ≢ id) r
    → All (IsReached (some id)) r
    → All (IsReached none) r
IsReached-others id [] n h = tt
IsReached-others id (l ∷ r) n h = (ground arith, IsReached-others id r n.1 h.1)

live_one :
    (id bound : ℕ) (r : List Loop) → IsFresh bound r → All (IsReached (some id)) r → live r ≤ 1
live_one id bound [] f h = omega arith
live_one id bound (l ∷ r) f h = elim (Bool-cases l.cancelled) [
  | inl e ↦ rw e (live_one id bound r f.2 h.1)
  | inr e ↦
      let same : l.id ≡ id = ground arith in
      let others = IsReached-others id r (rw same at f.1) h.1 in
      rw (e, live-none r others) (omega arith)
]

live_valid :
    (cancel : Option ℕ) (bound : ℕ) (r : List Loop)
    → IsFresh bound r
    → All (IsReached cancel) r
    → live r ≤ 1
live_valid none bound r f h = rw (live-none r h) (omega arith)
live_valid (some id) bound r f h = live_one id bound r f h

live-end : (id : ℕ) (r : List Loop) → All (IsReached none) r → live (end_loop id r) ≡ 0
live-end id r h = live-none (end_loop id r) (All-end (IsReached none) id r h)

module _ {W : Type 0} where
  -- A call that leaves the loops and the cancel function alone: all the other methods do.
  pub record Unrelated (t u : Agent W) : Type 0 where
    pub same_cancel : u.manager.heartbeat_cancel ≡ t.manager.heartbeat_cancel
    pub same_loops : u.loops ≡ t.loops
    pub same_next : u.next_loop ≡ t.next_loop

  -- One call of any goroutine, from its beginning to its end.
  pub data Step (t u : Agent W) : Type 0 where
    start : (pin : String) → u ≡ (start_heartbeat_loop pin t).1 → Step t u
    stop : u ≡ (stop_heartbeat_loop t).1 → Step t u
    handle : (l : Loop) (r : Result (Unit {0})) → u ≡ (handle_heartbeat l r t).1 → Step t u
    done : (l : Loop) → u ≡ (loop_done l t).1 → Step t u
    other : Unrelated t u → Step t u

  pub data Reach (s : Agent W) : Agent W → Type 0 where
    here : Reach s s
    next : {t u : Agent W} → Reach s t → Step t u → Reach s u

  Step-IsValid : {t u : Agent W} → Step t u → IsValid t → IsValid u
  Step-IsValid {t} (start pin e) v = rw e (start_heartbeat_loop-IsValid pin t v)
  Step-IsValid {t} (stop e) v = rw e (stop_heartbeat_loop-IsValid t v)
  Step-IsValid {t} (handle l r e) v = rw e (handle_heartbeat-IsValid l r t v)
  Step-IsValid {t} (done l e) v = rw e (loop_done-IsValid l t v)
  Step-IsValid (other same) v = record {
    reached = rw (same.same_cancel, same.same_loops) v.reached;
    fresh = rw (same.same_next, same.same_loops) v.fresh;
  }

  Reach-IsValid : {s t : Agent W} → IsValid s → Reach s t → IsValid t
  Reach-IsValid v here = v
  Reach-IsValid v (next r st) = Step-IsValid st (Reach-IsValid v r)

  -- From a valid state, in whatever order starts, stops, results of heartbeats, ends of goroutines
  -- and calls that leave the loops alone come, one call after another and none inside another, at
  -- most one heartbeat loop is live.
  pub Reach-live : {s t : Agent W} → IsValid s → Reach s t → live t.loops ≤ 1
  Reach-live {t = t} v r =
      let u = Reach-IsValid v r in
      live_valid t.manager.heartbeat_cancel t.next_loop t.loops u.fresh u.reached

  pub live-start :
      (pin : String) (a : Agent W) → IsValid a → live (start_heartbeat_loop pin a).1.loops ≡ 1
  live-start pin a v =
      let (gone, all, fresh) = stop_heartbeat_loop-silent a v in
      rw (start_heartbeat_loop-launch pin a)
        (ap suc (live-none (stop_heartbeat_loop a).1.loops all))

  failure_silent :
      (l : Loop) (e : Error) (a : Agent W)
      → IsValid a
      → let c = (handle_failure true l e a).1 in
        (live c.loops ≡ 0) × (c.manager.heartbeat_cancel ≡ none)
  failure_silent l e a v =
      let b = after_event (heartbeat_fatal l.pin e) a in
      let (gone, all, fresh) =
        stop_heartbeat_loop-silent b (record { reached = v.reached; fresh = v.fresh }) in
      rw (handle_failure-fatal l e a)
        (unfold loop_done in (live-end l.id (stop_heartbeat_loop b).1.loops all, gone))

  fatal_silent :
      (l : Loop) (e : Error) (a : Agent W)
      → IsValid a
      → is_request e ≡ true
      → let c = (handle_heartbeat l (err e) a).1 in
        (live c.loops ≡ 0) × (c.manager.heartbeat_cancel ≡ none)
  unfolding handle_heartbeat
  fatal_silent l e a v h = rw h (failure_silent l e a v)

  -- From a valid state, handling a failure that is a `*RequestError` leaves no loop live, whichever
  -- loop it was that failed, although a loop is live right after a start: so the late failure of
  -- an earlier loop ends the loop of the session that was started since.
  pub stale_failure :
      (old : Loop) (e : Error) (pin : String) (a : Agent W)
      → IsValid a
      → is_request e ≡ true
      → let b = (start_heartbeat_loop pin a).1 in
        let c = (handle_heartbeat old (err e) b).1 in
        (live b.loops ≡ 1) × (live c.loops ≡ 0) × (c.manager.heartbeat_cancel ≡ none)
  stale_failure old e pin a v h =
      let (ended, gone) =
        fatal_silent old e (start_heartbeat_loop pin a).1 (start_heartbeat_loop-IsValid pin a v)
          h in
      (live-start pin a v, ended, gone)
