-- ===== src/Runtime/Sessions.antt =====
-- Sessions across the manager's methods: a session that was started is the current one, one that
-- was stopped is gone, and a reboot ends a session.
pub mod Start
pub mod Stop
pub mod Shutdown
pub mod Unknown
pub mod Reboot
pub mod Machine
use rook_servicechannel_agen.Common.{
  ℕ, String, Bool, true, false, ◌||◌, Option, none, some, ◌≡◌, refl, ◌↔◌, ◌⊎◌, inl, inr, arith, ◌∙◌,
  ap, Bool-cases, Option-cases, str_eq, if◌then◌else◌,
}
use rook_servicechannel_agen.Text.{is_empty}
use rook_servicechannel_agen.Errors.{Error, text, sentinel, is, state_not_found}
use rook_servicechannel_agen.Action.{
  Result, ok, err, Action, pure, try, wrap_error, ◌>>=◌, ◌>>◌, >>=_ok, >>=_err, >>=-eq-ok,
  Result-cases,
}
use rook_servicechannel_agen.Host.{Host}
use rook_servicechannel_agen.Session.Files.{Laws}
use rook_servicechannel_agen.Backend.Contract.{SupportSession, validate_session}
use rook_servicechannel_agen.Backend.Client.{
  Client, begin_session_call, status_call, end_session_call,
}
use rook_servicechannel_agen.Session.Store
use rook_servicechannel_agen.Session.Store.{save, load, clear}
use rook_servicechannel_agen.Session.Laws.{load-save, load-clear, load-valid}
use rook_servicechannel_agen.Runtime.Heartbeat.{
  IsValid, stop_heartbeat_loop-ok, stop_heartbeat_loop-silent,
}
use rook_servicechannel_agen.Runtime.Heartbeat.Steps.{live, live-none}
use rook_servicechannel_agen.Network.Nmcli.{connected, disconnected}
use rook_servicechannel_agen.Runtime.State.{
  BinaryState, SupportState, idle, online, online_vpn_up, service_mode, Snapshot, Manager, Agent,
  on_world, emit, session_ended,
}
use rook_servicechannel_agen.Runtime.Manager.{
  derive_support_state, snapshot_of, stop_heartbeat_loop,
}
use rook_servicechannel_agen.Runtime.Calls.{
  snapshot, snapshot_result, begin_session, get_session_status, save_session, keep, resolve_pin,
  pin_error, load_state, client, current_boot_id, stop_session, recover_after_boot, recover_state,
  end_session_for_pin, clear_state, end_with, stop_with, recover_if, recover_loaded,
}

-- The support state is the service mode exactly if there is a session; without one it is
-- "online+vpnup" exactly if the VPN is connected, "online" exactly if only the WiFi is, and "idle"
-- exactly if neither is.
pub derive_support_state_iff :
    (has_session : Bool) (wifi vpn : BinaryState)
    → let s = derive_support_state has_session wifi vpn in
      ((s ≡ service_mode) ↔ (has_session ≡ true))
      × ((s ≡ online_vpn_up) ↔ ((has_session ≡ false) × (vpn ≡ connected)))
      × ((s ≡ online) ↔ ((has_session ≡ false) × (vpn ≡ disconnected) × (wifi ≡ connected)))
      × ((s ≡ idle) ↔ ((has_session ≡ false) × (vpn ≡ disconnected) × (wifi ≡ disconnected)))
unfolding derive_support_state
derive_support_state_iff has_session wifi vpn = ground arith

module _ {W : Type 0} (host : Host W) where
  -- What is loaded from the state file of the manager in a state of the agent.
  abbrev pub stored : Agent W → Result Store.State × W
  stored a = load host a.manager.state_store a.world

  -- The state file is read, the world is left alone, and the session is that.
  pub record Holds (a : Agent W) (session : SupportSession) : Type 0 where
    pub boot_id : String
    pub loaded : stored a ≡ (ok (record { session = session; boot_id = boot_id }), a.world)

  -- There is no state file.
  abbrev pub IsGone : Agent W → Type 0
  IsGone a = stored a ≡ (err (sentinel state_not_found), a.world)

  pub resolve_pin-Holds :
      (a : Agent W) {s : SupportSession} → Holds a s → resolve_pin host "" a ≡ (ok s.pin, a)
  unfolding resolve_pin
  resolve_pin-Holds a h = ground (arith, h.loaded)

  snapshot-Holds :
      (a : Agent W) {s : SupportSession}
      → Holds a s
      → snapshot host a ≡ (ok (snapshot_of a.manager (some s)), a)
  unfolding snapshot
  snapshot-Holds a h = ground (arith, h.loaded)

  pub resolve_pin-IsGone :
      (a : Agent W)
      → IsGone a
      → resolve_pin host "" a
        ≡ (err (text "no active session state found; use start first or provide --pin"), a)
  unfolding resolve_pin is
  resolve_pin-IsGone a h = ground (arith, h)

  snapshot-IsGone :
      (a : Agent W) → IsGone a → snapshot host a ≡ (ok (snapshot_of a.manager none), a)
  unfolding snapshot is
  snapshot-IsGone a h = ground (arith, h)

  -- A call on the world that succeeds leaves the rest of the agent as it was.
  pub on_world_inv :
      {A : Type 0} (m : Action W A) (a b : Agent W) {x : A}
      → on_world m a ≡ (ok x, b)
      → (m a.world ≡ (ok x, b.world)) × (b.manager ≡ a.manager) × (b.loops ≡ a.loops)
  on_world_inv m a b e = ground arith

module _ {W : Type 0} (host : Host W) (laws : Laws host) where
  abbrev save_at : SupportSession → String → Action (Agent W) (Unit {0})
  save_at session boot_id a =
      on_world (save host a.manager.state_store (record { session = session; boot_id = boot_id })) a

  save_session-Holds :
      (session : SupportSession) (a b : Agent W)
      → save_session host session a ≡ (ok tt, b)
      → Holds host b session
  unfolding save_session
  save_session-Holds session a b e =
      let (boot_id, u, c, saved) = >>=-eq-ok (current_boot_id host) (save_at session) a e in
      let (written, same, _) = on_world_inv host (save host u.manager.state_store _) u b saved in
      record {
        boot_id = boot_id;
        loaded = rw same (load-save host laws u.manager.state_store _ u.world b.world written);
      }

  keep-Holds :
      (session s : SupportSession) (a b : Agent W)
      → keep host session a ≡ (ok s, b)
      → (s ≡ session) × Holds host b session
  keep-Holds session s a b e =
      let (_, u, saved, rest) = >>=-eq-ok (save_session host session) (λ _. pure session) a e in
      let same : u ≡ b = ground arith in
      (ground arith, save_session-Holds session a b (rw same at saved))

  pub begin_session-Holds :
      (a b : Agent W) {s : SupportSession} → begin_session host a ≡ (ok s, b) → Holds host b s
  unfolding begin_session
  begin_session-Holds a b e =
      let (c, u, _, rest) =
        >>=-eq-ok (client host) (λ c. on_world (begin_session_call host c) >>= keep host) a e in
      let (session, v, _, kept) =
        >>=-eq-ok (on_world (begin_session_call host c)) (keep host) u rest in
      let (same, held) = keep-Holds session _ v b kept in rw same held

  -- A session that was started is valid and is the current one: its PIN is the one that is used
  -- where none is given, and the snapshot shows the session and the service mode.
  pub begin_session-current :
      (a b : Agent W) {s : SupportSession}
      → begin_session host a ≡ (ok s, b)
      → (validate_session s ≡ none)
        × (resolve_pin host "" b ≡ (ok s.pin, b))
        × (snapshot host b ≡ (ok (snapshot_of b.manager (some s)), b))
  begin_session-current a b e =
      let held = begin_session-Holds a b e in
      (
        load-valid host b.manager.state_store b.world b.world held.loaded,
        resolve_pin-Holds host b held,
        snapshot-Holds host b held,
      )

  clear_state-IsGone : (a b : Agent W) → clear_state host a ≡ (ok tt, b) → IsGone host b
  clear_state-IsGone a b e =
      let (cleared, same, _) = on_world_inv host (clear host a.manager.state_store) a b e in
      rw same (load-clear host laws a.manager.state_store a.world b.world cleared)

  -- What the end of a session leaves: no state file, and the manager and its loops as they were.
  abbrev Ended : Agent W → Agent W → Type 0
  Ended a b = IsGone host b × (b.manager ≡ a.manager) × (b.loops ≡ a.loops)

  end_session_for_pin-Ended :
      (pin : String) (a b : Agent W) → end_session_for_pin host pin a ≡ (ok tt, b) → Ended a b
  unfolding end_session_for_pin
  end_session_for_pin-Ended pin a b e =
      let (c, u, made, rest) = >>=-eq-ok (client host) (end_with host pin) a e in
      let (_, v, sent, cleared) =
        >>=-eq-ok (on_world (end_session_call host c pin)) (λ _. clear_state host) u rest in
      let (_, same, loops) = on_world_inv host (end_session_call host c pin) u v sent in
      let (_, same', loops') = on_world_inv host (clear host v.manager.state_store) v b cleared in
      let before : u ≡ a = ground arith in
      (clear_state-IsGone v b cleared, rw before at (same' ∙ same), rw before at (loops' ∙ loops))

  stop_with-Ended : (pin : String) (a b : Agent W) → stop_with host pin a ≡ (ok tt, b) → Ended a b
  stop_with-Ended pin a b e =
      let (_, u, ended, told) =
        >>=-eq-ok (end_session_for_pin host pin) (λ _. emit (session_ended pin)) a e in
      let (gone, same, loops) = end_session_for_pin-Ended pin a u ended in ground arith
