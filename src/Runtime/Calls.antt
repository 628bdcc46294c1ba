-- ===== src/Runtime/Calls.antt =====
-- The methods of `Manager` in internal/runtime/manager.go that read or write the session state
-- file or call the backend.
use rook_servicechannel_agen.Common.{
  String, Bool, true, false, ◌||◌, none, some, str_eq, if◌then◌else◌,
}
use rook_servicechannel_agen.Text.{is_empty}
use rook_servicechannel_agen.Errors.{Error, text, wrap, is, state_not_found}
use rook_servicechannel_agen.Action.{
  Result, ok, err, Action, pure, fail, try, ◌>>=◌, ◌>>◌, wrap_error,
}
use rook_servicechannel_agen.Host.{Host}
use rook_servicechannel_agen.Backend.Contract.{SupportSession}
use rook_servicechannel_agen.Backend.Client.{
  Client, new_client, begin_session_call, status_call, heartbeat_call, end_session_call,
}
use rook_servicechannel_agen.Session.Store
use rook_servicechannel_agen.Session.Store.{save, load, clear}
use rook_servicechannel_agen.Runtime.State.{
  session_resumed, session_ended, Snapshot, Manager, Loop, Agent, on_world, emit,
}
use rook_servicechannel_agen.Runtime.Manager.{
  handle_heartbeat, snapshot_of, start_heartbeat_loop, stop_heartbeat_loop,
}

module _ {W : Type 0} (host : Host W) where
  -- `client`
  abbrev pub client : Action (Agent W) Client
  client a = (new_client host a.manager.backend_url, a)

  -- `currentBootID`
  unfoldable pub current_boot_id : Action (Agent W) String
  current_boot_id a = elim a.manager.boot_id_func [ none ↦ (ok "", a) | some f ↦ on_world f a ]

  abbrev pub load_state : Action (Agent W) Store.State
  load_state a = on_world (load host a.manager.state_store) a

  -- `saveSession`
  unfoldable pub save_session : SupportSession → Action (Agent W) (Unit {0})
  save_session session = do
    boot_id ← current_boot_id
    λ a.
        on_world (save host a.manager.state_store (record { session = session; boot_id = boot_id }))
          a

  -- `resolvePIN`, `CurrentPIN`
  abbrev pub pin_error : Error → Error
  pin_error e =
      if is state_not_found e
      then text "no active session state found; use start first or provide --pin"
      else e

  abbrev pub stored_pin : Action (Agent W) String
  stored_pin = do state ← wrap_error pin_error load_state; pure state.session.pin

  unfoldable pub resolve_pin : String → Action (Agent W) String
  resolve_pin pin_override = if is_empty pin_override then stored_pin else pure pin_override

  -- The session is saved and returned.
  abbrev pub keep : SupportSession → Action (Agent W) SupportSession
  keep session = do save_session session; pure session

  -- `BeginSession`
  unfoldable pub begin_session : Action (Agent W) SupportSession
  begin_session = do c ← client; session ← on_world (begin_session_call host c); keep session

  abbrev pub ask_status : Client → String → Action (Agent W) SupportSession
  ask_status c pin = do session ← on_world (status_call host c pin); keep session

  -- `GetSessionStatus`
  unfoldable pub get_session_status : String → Action (Agent W) SupportSession
  get_session_status pin_override = do c ← client; pin ← resolve_pin pin_override; ask_status c pin

  abbrev pub snapshot_result : Manager W → Result Store.State → Result Snapshot
  snapshot_result m (ok state) = ok (snapshot_of m (some state.session))
  snapshot_result m (err e) = if is state_not_found e then ok (snapshot_of m none) else err e

  -- `Snapshot`
  unfoldable pub snapshot : Action (Agent W) Snapshot
  snapshot = do state ← try load_state; λ a. (snapshot_result a.manager state, a)

  abbrev pub clear_state : Action (Agent W) (Unit {0})
  clear_state a = on_world (clear host a.manager.state_store) a

  -- `RecoverAfterBoot` once the state is loaded and the boot id is known.
  abbrev pub recover_if : Bool → String → Action (Agent W) Bool
  recover_if true pin = pure false
  recover_if false pin = do clear_state; emit (session_ended pin); pure true

  unfoldable pub recover_state : Store.State → Action (Agent W) Bool
  recover_state state = do
    boot_id ← current_boot_id
    recover_if (is_empty state.boot_id || str_eq state.boot_id boot_id) state.session.pin

  abbrev pub recover_loaded : Result Store.State → Action (Agent W) Bool
  recover_loaded (ok state) = recover_state state
  recover_loaded (err e) = if is state_not_found e then pure false else fail e

  -- `RecoverAfterBoot`
  unfoldable pub recover_after_boot : Action (Agent W) Bool
  recover_after_boot = do loaded ← try load_state; recover_loaded loaded

  -- `sendHeartbeatForPIN`
  unfoldable pub send_heartbeat_for_pin : String → Action (Agent W) (Unit {0})
  send_heartbeat_for_pin pin = do c ← client; on_world (heartbeat_call host c pin)

  -- `SendHeartbeat`
  unfoldable pub send_heartbeat : String → Action (Agent W) (Unit {0})
  send_heartbeat pin_override = do pin ← resolve_pin pin_override; send_heartbeat_for_pin pin

  -- One tick of a heartbeat goroutine with nothing between the call and its handling.
  unfoldable pub heartbeat_tick : Loop → Action (Agent W) (Unit {0})
  heartbeat_tick l = do r ← try (send_heartbeat_for_pin l.pin); handle_heartbeat l r

  -- `endSessionForPIN`
  abbrev pub end_with : String → Client → Action (Agent W) (Unit {0})
  end_with pin c = do on_world (end_session_call host c pin); clear_state

  unfoldable pub end_session_for_pin : String → Action (Agent W) (Unit {0})
  end_session_for_pin pin = do c ← client; end_with pin c

  abbrev pub stop_with : String → Action (Agent W) (Unit {0})
  stop_with pin = do end_session_for_pin pin; emit (session_ended pin)

  -- `StopSession`
  unfoldable pub stop_session : String → Action (Agent W) (Unit {0})
  stop_session pin_override = do pin ← resolve_pin pin_override; stop_heartbeat_loop; stop_with pin

  -- `RunService` up to `<-ctx.Done()`
  unfoldable pub resume_service : Action (Agent W) (Unit {0})
  resume_service = do
    loaded ← try load_state
    elim loaded [
      | ok state ↦ do
        emit (session_resumed state.session.pin)
        start_heartbeat_loop state.session.pin
      | err e ↦ if is state_not_found e then pure tt else fail e
    ]

  -- What `RunService` does with the state that it loaded when its context was done.
  abbrev pub shut_down_loaded : Result Store.State → Action (Agent W) (Unit {0})
  shut_down_loaded (err e) = if is state_not_found e then pure tt else fail e
  shut_down_loaded (ok state) = do
    wrap_error (λ e. wrap "shutdown active session: " e "") (end_session_for_pin state.session.pin)
    emit (session_ended state.session.pin)

  -- `RunService` from `<-ctx.Done()` on
  unfoldable pub shut_down_service : Action (Agent W) (Unit {0})
  shut_down_service = do loaded ← try load_state; stop_heartbeat_loop; shut_down_loaded loaded

  -- `RunService`; `meanwhile` is all that the other goroutines do until the context is done.
  unfoldable pub run_service : (Agent W → Agent W) → Action (Agent W) (Unit {0})
  run_service meanwhile = do resume_service; λ a. shut_down_service (meanwhile a)
