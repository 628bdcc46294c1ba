-- ===== src/Runtime/Sessions/Reboot.antt =====
-- Recovery after a reboot: `RecoverAfterBoot`.
use rook_servicechannel_agen.Common.{
  String, Bool, true, false, ◌||◌, ◌≡◌, ◌≢◌, refl, arith, str_eq, eq_iff,
}
use rook_servicechannel_agen.Text.{is_empty}
use rook_servicechannel_agen.Action.{Result, ok, err, pure, try, ◌>>=◌, >>=_ok, >>=-eq-ok}
use rook_servicechannel_agen.Host.{Host}
use rook_servicechannel_agen.Session.Files.{Laws}
use rook_servicechannel_agen.Session.Store
use rook_servicechannel_agen.Session.Store.{load}
use rook_servicechannel_agen.Runtime.State.{Agent, emit, session_ended}
use rook_servicechannel_agen.Runtime.Calls.{
  load_state, current_boot_id, recover_after_boot, recover_state, clear_state, recover_if,
  recover_loaded,
}
use rook_servicechannel_agen.Runtime.Sessions.{IsGone, clear_state-IsGone}

module _ {W : Type 0} (host : Host W) where
  -- What a recovery has found, by the state that was loaded: a boot id that is known and is not
  -- that of the running system.
  pub record Rebooted (state : Store.State) (a : Agent W) : Type 0 where
    pub now : String
    pub after : Agent W
    pub running : current_boot_id host a ≡ (ok now, after)
    pub known : is_empty state.boot_id ≡ false
    pub differs : state.boot_id ≢ now

module _ {W : Type 0} (host : Host W) (laws : Laws host) where
  recover_if-true :
      (same : Bool) (pin : String) (a b : Agent W)
      → recover_if host same pin a ≡ (ok true, b)
      → (same ≡ false) × IsGone host b
  recover_if-true true pin a b e = ground arith
  recover_if-true false pin a b e =
      let (_, u, cleared, rest) =
        >>=-eq-ok (clear_state host) (λ _. emit (session_ended pin) >>= λ _. pure true) a e in
      let gone = clear_state-IsGone host laws a u cleared in (refl, ground arith)

  recover_state-true :
      (state : Store.State) (a b : Agent W)
      → recover_state host state a ≡ (ok true, b)
      → Rebooted host state a × IsGone host b
  unfolding recover_state
  recover_state-true state a b e =
      let (now, u, running, rest) =
        >>=-eq-ok (current_boot_id host)
          (λ now.
            recover_if host (is_empty state.boot_id || str_eq state.boot_id now) state.session.pin)
          a e in
      let (test, gone) =
        recover_if-true (is_empty state.boot_id || str_eq state.boot_id now) state.session.pin u b
          rest in
      (
        record {
          now = now;
          after = u;
          running = running;
          known = ground arith;
          differs = ground (arith, eq_iff state.boot_id now);
        },
        gone,
      )

  recover_loaded-true :
      (loaded : Result Store.State) (a b : Agent W)
      → recover_loaded host loaded a ≡ (ok true, b)
      → (state : Store.State) × (loaded ≡ ok state) × Rebooted host state a × IsGone host b
  recover_loaded-true (ok state) a b e =
      let (rebooted, gone) = recover_state-true state a b e in (state, refl, rebooted, gone)
  recover_loaded-true (err x) a b e = ground arith

  -- A recovery that reports a reboot found a state with the boot id of an earlier boot, and has
  -- left no state behind.
  pub recover_after_boot-true :
      (a b : Agent W)
      → recover_after_boot host a ≡ (ok true, b)
      → (state : Store.State) × (loaded : Agent W) × (load_state host a ≡ (ok state, loaded))
        × Rebooted host state loaded
        × IsGone host b
  unfolding recover_after_boot
  recover_after_boot-true a b e =
      let (r, u, tried, rest) = >>=-eq-ok (try (load_state host)) (recover_loaded host) a e in
      let (state, same, rebooted, gone) = recover_loaded-true r u b rest in
      (state, u, ground arith, rebooted, gone)

module _ {W : Type 0} (host : Host W) where
  -- A state of this boot, or one without a boot id, is kept: the recovery reports no reboot and
  -- changes nothing, where the state and the boot id can be read without a change to the agent.
  recover_after_boot-kept :
      (a : Agent W) {state : Store.State} {now : String}
      → load_state host a ≡ (ok state, a)
      → current_boot_id host a ≡ (ok now, a)
      → (is_empty state.boot_id || str_eq state.boot_id now) ≡ true
      → recover_after_boot host a ≡ (ok false, a)
  unfolding recover_after_boot recover_state
  recover_after_boot-kept a l c t =
      ground (arith, >>=_ok (try (load_state host)) (recover_loaded host) a, l, c)
