-- ===== src/Runtime/Manager.antt =====
-- The methods of `Manager` in internal/runtime/manager.go that touch its own state only: what it
-- knows of the networks, its subscribers, and the heartbeat goroutines.
use rook_servicechannel_agen.Common.{
  ℕ, ◌+◌, String, Bool, true, false, ◌||◌, Option, none, some, List, [], ◌∷◌, ◌++◌, ◌==◌,
  if◌then◌else◌,
}
use rook_servicechannel_agen.Errors.{Error, is_request}
use rook_servicechannel_agen.Action.{Result, ok, err, Action, pure, ◌>>◌}
use rook_servicechannel_agen.Backend.Contract.{SupportSession, no_session}
use rook_servicechannel_agen.Network.Nmcli.{WifiNetwork, connected, disconnected}
use rook_servicechannel_agen.Runtime.State.{
  BinaryState, SupportState, idle, online, online_vpn_up, service_mode, heartbeat_started,
  heartbeat_stopped, heartbeat_error, heartbeat_fatal, wifi_scan_completed, wifi_state_changed,
  vpn_state_changed, Snapshot, Manager, Loop, Agent, change, emit,
}

-- `deriveSupportState`
unfoldable pub derive_support_state : Bool → BinaryState → BinaryState → SupportState
derive_support_state true wifi vpn = service_mode
derive_support_state false wifi connected = online_vpn_up
derive_support_state false connected disconnected = online
derive_support_state false disconnected disconnected = idle

abbrev pub remove_id : ℕ → List ℕ → List ℕ
remove_id id [] = []
remove_id id (j ∷ r) = if j == id then remove_id id r else j ∷ remove_id id r

abbrev pub cancel_loop : ℕ → List Loop → List Loop
cancel_loop id [] = []
cancel_loop id (l ∷ r) = record l { cancelled = l.id == id || l.cancelled } ∷ cancel_loop id r

abbrev pub end_loop : ℕ → List Loop → List Loop
end_loop id [] = []
end_loop id (l ∷ r) = if l.id == id then end_loop id r else l ∷ end_loop id r

module _ {W : Type 0} where
  -- `Subscribe` with a handler, and the function that it returns.
  unfoldable pub subscribe : Action (Agent W) ℕ
  subscribe a = (
    ok a.manager.next_subscriber_id,
    record a {
      manager = record a.manager {
        subscribers = a.manager.subscribers ++ a.manager.next_subscriber_id ∷ [];
        next_subscriber_id = a.manager.next_subscriber_id + 1;
      };
    },
  )

  unfoldable pub unsubscribe : ℕ → Action (Agent W) (Unit {0})
  unsubscribe id = change λ m. record m { subscribers = remove_id id m.subscribers }

  -- `SetHeartbeatInterval`
  unfoldable pub set_heartbeat_interval : ℕ → Action (Agent W) (Unit {0})
  set_heartbeat_interval n = change λ m. record m { heartbeat_interval = n }

  -- `SyncWiFiNetworks`, `SyncWiFiState`, `SyncWiFiStatus`, `SyncVPNState`; `SetWiFiStatus` does
  -- the same as `SyncWiFiStatus`.
  unfoldable pub sync_wifi_networks : List WifiNetwork → Action (Agent W) (Unit {0})
  sync_wifi_networks networks = change λ m. record m { wifi_networks = networks }

  unfoldable pub sync_wifi_state : BinaryState → Action (Agent W) (Unit {0})
  sync_wifi_state state = change λ m. record m { wifi_state = state }

  unfoldable pub sync_wifi_status : Bool → Bool → String → Action (Agent W) (Unit {0})
  sync_wifi_status any support active = change λ m. record m {
    any_wifi_active = any;
    support_wifi_active = support;
    active_wifi_connection = active;
  }

  unfoldable pub sync_vpn_state : BinaryState → Action (Agent W) (Unit {0})
  sync_vpn_state state = change λ m. record m { vpn_state = state }

  -- `UpdateWiFiNetworks`, `SetWiFiState`, `SetVPNState`
  unfoldable pub update_wifi_networks : List WifiNetwork → Action (Agent W) (Unit {0})
  unfolding sync_wifi_networks
  update_wifi_networks networks = do
    sync_wifi_networks networks
    emit (wifi_scan_completed networks)

  unfoldable pub set_wifi_state : BinaryState → Action (Agent W) (Unit {0})
  unfolding sync_wifi_state
  set_wifi_state state = do sync_wifi_state state; emit (wifi_state_changed state)

  unfoldable pub set_vpn_state : BinaryState → Action (Agent W) (Unit {0})
  unfolding sync_vpn_state
  set_vpn_state state = do sync_vpn_state state; emit (vpn_state_changed state)

  -- `currentWiFiState`, `currentVPNState`, `currentWiFiNetworks`, `currentAnyWiFiActive`,
  -- `currentSupportWiFiActive`, `currentActiveWiFiConnection`
  abbrev current_wifi_state : Manager W → BinaryState
  current_wifi_state m = m.wifi_state

  abbrev current_vpn_state : Manager W → BinaryState
  current_vpn_state m = m.vpn_state

  abbrev current_wifi_networks : Manager W → List WifiNetwork
  current_wifi_networks m = m.wifi_networks

  abbrev current_any_wifi_active : Manager W → Bool
  current_any_wifi_active m = m.any_wifi_active

  abbrev current_support_wifi_active : Manager W → Bool
  current_support_wifi_active m = m.support_wifi_active

  abbrev current_active_wifi_connection : Manager W → String
  current_active_wifi_connection m = m.active_wifi_connection

  -- The part of `Snapshot` that is built from the manager and the state that was loaded, if any.
  unfoldable pub snapshot_of : Manager W → Option SupportSession → Snapshot
  unfolding derive_support_state
  snapshot_of m none = record {
    has_session = false;
    session = no_session;
    wifi_state = some (current_wifi_state m);
    vpn_state = some (current_vpn_state m);
    support_state = derive_support_state false (current_wifi_state m) (current_vpn_state m);
    wifi_networks = current_wifi_networks m;
    any_wifi_active = current_any_wifi_active m;
    support_wifi_active = current_support_wifi_active m;
    active_wifi_connection = current_active_wifi_connection m;
  }
  snapshot_of m (some session) = record {
    has_session = true;
    session = session;
    wifi_state = some (current_wifi_state m);
    vpn_state = some (current_vpn_state m);
    support_state = derive_support_state true (current_wifi_state m) (current_vpn_state m);
    wifi_networks = current_wifi_networks m;
    any_wifi_active = current_any_wifi_active m;
    support_wifi_active = current_support_wifi_active m;
    active_wifi_connection = current_active_wifi_connection m;
  }

  -- `StopHeartbeatLoop`, by the cancel function that it took from the manager.
  abbrev pub stop_loop : Option ℕ → Action (Agent W) (Unit {0})
  stop_loop none a = (ok tt, a)
  stop_loop (some id) a = emit heartbeat_stopped (record a {
    manager = record a.manager { heartbeat_cancel = none };
    loops = cancel_loop id a.loops;
  })

  unfoldable pub stop_heartbeat_loop : Action (Agent W) (Unit {0})
  stop_heartbeat_loop a = stop_loop a.manager.heartbeat_cancel a

  -- The goroutine and its cancel function, made by `StartHeartbeatLoop`.
  abbrev pub launch : String → Agent W → Agent W
  launch pin a = record a {
    manager = record a.manager { heartbeat_cancel = some a.next_loop };
    loops = record { id = a.next_loop; pin = pin; cancelled = false } ∷ a.loops;
    next_loop = a.next_loop + 1;
  }

  -- `StartHeartbeatLoop` after the call of `StopHeartbeatLoop`
  abbrev pub install : String → Action (Agent W) (Unit {0})
  install pin a = emit (heartbeat_started pin a.manager.heartbeat_interval) (launch pin a)

  -- `StartHeartbeatLoop`
  unfoldable pub start_heartbeat_loop : String → Action (Agent W) (Unit {0})
  start_heartbeat_loop pin = do stop_heartbeat_loop; install pin

  -- What the goroutine does with the result of a heartbeat; an error is fatal if it is a
  -- `*RequestError`, and then the goroutine returns.
  abbrev pub handle_failure : Bool → Loop → Error → Action (Agent W) (Unit {0})
  handle_failure true l e = do
    emit (heartbeat_fatal l.pin e)
    stop_heartbeat_loop
    λ a. (ok tt, record a { loops = end_loop l.id a.loops })
  handle_failure false l e = emit (heartbeat_error l.pin e)

  unfoldable pub handle_heartbeat : Loop → Result (Unit {0}) → Action (Agent W) (Unit {0})
  handle_heartbeat l (ok _) = pure tt
  handle_heartbeat l (err e) = handle_failure (is_request e) l e

  -- The goroutine returns once its context is done.
  unfoldable pub loop_done : Loop → Action (Agent W) (Unit {0})
  loop_done l a = (ok tt, record a { loops = end_loop l.id a.loops })
