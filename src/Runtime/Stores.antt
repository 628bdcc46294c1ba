-- ===== src/Runtime/Stores.antt =====
-- No call of the manager of internal/runtime/manager.go changes where its state file is.
use rook_servicechannel_agen.Common.{String, Bool, ◌≡◌, arith, if◌then◌else◌}
use rook_servicechannel_agen.Action.{Result, ok, err, Action, pure, fail, ◌>>◌}
use rook_servicechannel_agen.Action.Keeps.{Keeps, Keeps-bind, keeps_rules}
use rook_servicechannel_agen.Host.{Host}
use rook_servicechannel_agen.Errors.{is, state_not_found}
use rook_servicechannel_agen.Session.Store
use rook_servicechannel_agen.Session.Store.{Store}
use rook_servicechannel_agen.Runtime.State.{
  BinaryState, Agent, on_world, emit, Event, session_resumed,
}
use rook_servicechannel_agen.Runtime.Manager.{
  start_heartbeat_loop, stop_heartbeat_loop, set_wifi_state, set_vpn_state, sync_wifi_status,
  sync_vpn_state, sync_wifi_state,
}
use rook_servicechannel_agen.Runtime.Calls.{
  load_state, shut_down_loaded, recover_after_boot, recover_state, current_boot_id, snapshot,
  resume_service, run_service, shut_down_service, end_session_for_pin,
}

abbrev pub HasStore : {W : Type 0} → Store → Agent W → Type 0
HasStore st a = a.manager.state_store ≡ st

module _ {W : Type 0} (st : Store) where
  pub on_world-HasStore : {A : Type 0} (m : Action W A) → Keeps (HasStore st) (on_world m)
  on_world-HasStore m = record { at = λ a h. h }

  pub emit-HasStore : (e : Event) → Keeps (HasStore {W = W} st) (emit e)
  emit-HasStore e = record { at = λ a h. h }

  pub stop_heartbeat_loop-HasStore : Keeps (HasStore {W = W} st) stop_heartbeat_loop
  unfolding stop_heartbeat_loop
  stop_heartbeat_loop-HasStore = record { at = λ a h. ground arith }

  pub start_heartbeat_loop-HasStore :
      (pin : String) → Keeps (HasStore {W = W} st) (start_heartbeat_loop pin)
  unfolding start_heartbeat_loop stop_heartbeat_loop
  start_heartbeat_loop-HasStore pin = record { at = λ a h. ground arith }

  pub set_vpn_state-HasStore : (s : BinaryState) → Keeps (HasStore {W = W} st) (set_vpn_state s)
  unfolding set_vpn_state sync_vpn_state
  set_vpn_state-HasStore s = record { at = λ a h. h }

  pub set_wifi_state-HasStore : (s : BinaryState) → Keeps (HasStore {W = W} st) (set_wifi_state s)
  unfolding set_wifi_state sync_wifi_state
  set_wifi_state-HasStore s = record { at = λ a h. h }

  pub sync_wifi_status-HasStore :
      (any support : Bool) (active : String)
      → Keeps (HasStore {W = W} st) (sync_wifi_status any support active)
  unfolding sync_wifi_status
  sync_wifi_status-HasStore any support active = record { at = λ a h. h }

  module _ (host : Host W) where
    pub snapshot-HasStore : Keeps (HasStore st) (snapshot host)
    unfolding snapshot
    snapshot-HasStore = record { at = λ a h. h }

    pub recover_after_boot-HasStore : Keeps (HasStore st) (recover_after_boot host)
    unfolding recover_after_boot recover_state current_boot_id
    recover_after_boot-HasStore = record { at = λ a h. ground arith }

    resumed-HasStore :
        (loaded : Result Store.State)
        → Keeps (HasStore st) (elim loaded as (λ _. Action (Agent W) (Unit {0})) [
          | ok state ↦
              emit (session_resumed state.session.pin) >> start_heartbeat_loop state.session.pin
          | err e ↦ if is state_not_found e then pure tt else fail e
        ])
    resumed-HasStore (ok state) = search (keeps_rules, emit-HasStore, start_heartbeat_loop-HasStore)
    resumed-HasStore (err e) = search keeps_rules

    load_state-HasStore : Keeps (HasStore st) (load_state host)
    load_state-HasStore = record { at = λ a h. h }

    pub resume_service-HasStore : Keeps (HasStore st) (resume_service host)
    unfolding resume_service
    resume_service-HasStore = search (keeps_rules, load_state-HasStore, resumed-HasStore)

    end_session_for_pin-HasStore :
        (pin : String) → Keeps (HasStore st) (end_session_for_pin host pin)
    unfolding end_session_for_pin
    end_session_for_pin-HasStore pin = record { at = λ a h. ground arith }

    shut_down_loaded-HasStore :
        (loaded : Result Store.State) → Keeps (HasStore st) (shut_down_loaded host loaded)
    shut_down_loaded-HasStore (ok state) =
        search (keeps_rules, end_session_for_pin-HasStore, emit-HasStore)
    shut_down_loaded-HasStore (err e) = search keeps_rules

    pub shut_down_service-HasStore : Keeps (HasStore st) (shut_down_service host)
    unfolding shut_down_service
    shut_down_service-HasStore =
        search (
          keeps_rules, load_state-HasStore, stop_heartbeat_loop-HasStore, shut_down_loaded-HasStore,
        )

    -- The service, if the other goroutines leave the state file where it is.
    pub run_service-HasStore :
        (meanwhile : Agent W → Agent W)
        → ((a : Agent W) → HasStore st a → HasStore st (meanwhile a))
        → Keeps (HasStore st) (run_service host meanwhile)
    unfolding run_service
    run_service-HasStore meanwhile keeps =
        let ended : Keeps (HasStore st) (λ a. shut_down_service host (meanwhile a)) = record {
          at = λ a h. shut_down_service-HasStore.at (meanwhile a) (keeps a h);
        } in
        Keeps-bind _ _ resume_service-HasStore (λ _. ended)
