-- ===== src/Runtime/State.antt =====
-- The state of `Manager` in internal/runtime/manager.go, and what surrounds it: the world of the
-- host, the heartbeat goroutines and the calls of the subscribed handlers.
use rook_servicechannel_agen.Common.{
  ℕ, String, Bool, false, Option, none, some, List, [], ◌++◌, map,
}
use rook_servicechannel_agen.Errors.{Error}
use rook_servicechannel_agen.Action.{ok, Action}
use rook_servicechannel_agen.Host.{Host}
use rook_servicechannel_agen.Backend.Contract.{SupportSession, no_session, heartbeat_frequency}
use rook_servicechannel_agen.Session.Store.{Store, current_boot_id}
use rook_servicechannel_agen.Network.Nmcli.{ConnectionState, disconnected, WifiNetwork}

-- `BinaryState` has the values of the network package's `ConnectionState`, from which it is cast.
abbrev pub BinaryState : Type 0
BinaryState = ConnectionState

pub data SupportState : Type 0 where
  -- The empty text of `Snapshot{}`.
  unset : SupportState
  idle online online_vpn_up service_mode : SupportState

-- `Event`: a constructor for each kind, with the fields that this kind sets.
pub data Event : Type 0 where
  heartbeat_started : String → ℕ → Event
  heartbeat_stopped : Event
  heartbeat_error heartbeat_fatal : String → Error → Event
  session_resumed session_ended : String → Event
  wifi_scan_completed : List WifiNetwork → Event
  wifi_state_changed vpn_state_changed : BinaryState → Event

pub record Snapshot : Type 0 where
  pub has_session : Bool
  pub session : SupportSession
  pub wifi_state : Option BinaryState
  pub vpn_state : Option BinaryState
  pub support_state : SupportState
  pub wifi_networks : List WifiNetwork
  pub any_wifi_active : Bool
  pub support_wifi_active : Bool
  pub active_wifi_connection : String

-- `Snapshot{}`
abbrev pub zero_snapshot : Snapshot
zero_snapshot = record {
  has_session = false;
  session = no_session;
  wifi_state = none;
  vpn_state = none;
  support_state = unset;
  wifi_networks = [];
  any_wifi_active = false;
  support_wifi_active = false;
  active_wifi_connection = "";
}

-- `heartbeat_cancel` names the loop whose context the cancel function cancels; a subscriber is
-- its id, and the handler itself is not modelled here.
pub record Manager (W : Type 0) : Type 0 where
  pub backend_url : String
  pub state_store : Store
  pub boot_id_func : Option (Action W String)
  pub heartbeat_interval : ℕ
  pub heartbeat_cancel : Option ℕ
  pub wifi_state : BinaryState
  pub vpn_state : BinaryState
  pub wifi_networks : List WifiNetwork
  pub any_wifi_active : Bool
  pub support_wifi_active : Bool
  pub active_wifi_connection : String
  pub subscribers : List ℕ
  pub next_subscriber_id : ℕ

-- A goroutine started by `StartHeartbeatLoop`, until it returns.
pub record Loop : Type 0 where
  pub id : ℕ
  pub pin : String
  pub cancelled : Bool

-- `delivered` lists the calls of handlers, in order, each with the subscriber's id.
pub record Agent (W : Type 0) : Type 0 where
  pub manager : Manager W
  pub world : W
  pub loops : List Loop
  pub next_loop : ℕ
  pub delivered : List (ℕ × Event)

-- `New`
unfoldable pub new : {W : Type 0} → Host W → String → String → Manager W
new host backend_url state_path = record {
  backend_url = backend_url;
  state_store = record { file = state_path };
  boot_id_func = some (current_boot_id host);
  heartbeat_interval = heartbeat_frequency;
  heartbeat_cancel = none;
  wifi_state = disconnected;
  vpn_state = disconnected;
  wifi_networks = [];
  any_wifi_active = false;
  support_wifi_active = false;
  active_wifi_connection = "";
  subscribers = [];
  next_subscriber_id = 0;
}

module _ {W : Type 0} where
  -- A call that touches the world only.
  abbrev pub on_world : {A : Type 0} → Action W A → Action (Agent W) A
  on_world m a = let (r, w) = m a.world in (r, record a { world = w })

  abbrev pub change : (Manager W → Manager W) → Action (Agent W) (Unit {0})
  change f a = (ok tt, record a { manager = f a.manager })

  -- `emit`; Go iterates over the map of handlers in an unspecified order, the model in the order
  -- of subscription.
  abbrev pub emit : Event → Action (Agent W) (Unit {0})
  emit e a =
      (ok tt, record a { delivered = a.delivered ++ map (λ id. (id, e)) a.manager.subscribers })
