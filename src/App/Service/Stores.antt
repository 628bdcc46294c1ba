-- ===== src/App/Service/Stores.antt =====
-- The service of internal/app/app.go leaves its state file where it is.
use rook_servicechannel_agen.Common.{ℕ, String, Bool, true, false}
use rook_servicechannel_agen.Errors.{Error}
use rook_servicechannel_agen.Action.{Result, ok, err, Action}
use rook_servicechannel_agen.Action.Keeps.{Keeps, keeps_rules}
use rook_servicechannel_agen.Host.{Host}
use rook_servicechannel_agen.Session.Store.{Store}
use rook_servicechannel_agen.Network.Nmcli.{WifiStatus}
use rook_servicechannel_agen.Runtime.State.{Agent}
use rook_servicechannel_agen.Runtime.Stores.{
  HasStore, set_wifi_state-HasStore, set_vpn_state-HasStore, sync_wifi_status-HasStore,
  snapshot-HasStore, recover_after_boot-HasStore,
}
use rook_servicechannel_agen.App.{App, with_agent}
use rook_servicechannel_agen.App.Commands.{call, network, set_wifi}
use rook_servicechannel_agen.App.Service.{allowed, sync_network_state, cleanup_if, prepare_service}

abbrev pub AppHasStore : {W : Type 0} → Store → App W → Type 0
AppHasStore st a = HasStore st a.agent

module _ {W : Type 0} (duration_text : ℕ → String) (host : Host W) (st : Store) where
  call-HasStore :
      {A : Type 0} (m : Action (Agent W) A)
      → Keeps (HasStore st) m
      → Keeps (AppHasStore st) (call duration_text host m)
  unfolding with_agent
  call-HasStore m k = record { at = λ a h. k.at a.agent h }

  network-HasStore :
      {A : Type 0} (m : Action W A) → Keeps (AppHasStore st) (network duration_text host m)
  network-HasStore m = record { at = λ a h. h }

  ruleset stores_rules = (
    keeps_rules, call-HasStore, network-HasStore, set_wifi_state-HasStore, set_vpn_state-HasStore,
    sync_wifi_status-HasStore, snapshot-HasStore, recover_after_boot-HasStore,
  )

  set_wifi-HasStore : (s : WifiStatus) → Keeps (AppHasStore st) (set_wifi duration_text host s)
  set_wifi-HasStore s = search stores_rules

  allowed-HasStore :
      (f : Error → Error) (r : Result (Unit {0})) → Keeps (AppHasStore {W = W} st) (allowed f r)
  allowed-HasStore f (ok x) = search stores_rules
  allowed-HasStore f (err e) = search stores_rules

  cleanup_if-HasStore : (b : Bool) → Keeps (AppHasStore st) (cleanup_if duration_text host b)
  cleanup_if-HasStore true = search (stores_rules, allowed-HasStore)
  cleanup_if-HasStore false = search stores_rules

  sync_network_state-HasStore : Keeps (AppHasStore st) (sync_network_state duration_text host)
  unfolding sync_network_state
  sync_network_state-HasStore = search (stores_rules, set_wifi-HasStore)

  pub prepare_service-HasStore : Keeps (AppHasStore st) (prepare_service duration_text host)
  unfolding prepare_service
  prepare_service-HasStore =
      search (stores_rules, allowed-HasStore, cleanup_if-HasStore, sync_network_state-HasStore)
        depth 9
