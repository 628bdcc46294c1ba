-- ===== src/App/Service.antt =====
-- internal/app/app.go: the service, from the recovery of its state to the end of its goroutines.
pub mod Stores
use rook_servicechannel_agen.Common.{ℕ, String, Bool, true, false, ◌||◌, not, if◌then◌else◌}
use rook_servicechannel_agen.Errors.{Error, wrap}
use rook_servicechannel_agen.Action.{Result, ok, err, Action, pure, fail, try, ◌>>=◌, ◌>>◌}
use rook_servicechannel_agen.Host.{Host}
use rook_servicechannel_agen.Network.Wifi.{wifi_status}
use rook_servicechannel_agen.Network.Vpn
use rook_servicechannel_agen.Network.Vpn.{vpn_status, is_command_unavailable}
use rook_servicechannel_agen.Runtime.State.{Agent}
use rook_servicechannel_agen.Runtime.Manager.{set_vpn_state}
use rook_servicechannel_agen.Runtime.Calls.{recover_after_boot, snapshot, run_service}
use rook_servicechannel_agen.App.{App}
use rook_servicechannel_agen.App.Commands.{call, network, set_wifi}

-- `if err := ...; err != nil && !network.IsCommandUnavailable(err) { return ... }`
abbrev pub allowed : {S : Type 0} → (Error → Error) → Result (Unit {0}) → Action S (Unit {0})
allowed f (ok _) = pure tt
allowed f (err e) = if is_command_unavailable e then pure tt else fail (f e)

-- What `runService` returns of the results of its two goroutines, in the order of their ends.
unfoldable pub first_error : Result (Unit {0}) → Result (Unit {0}) → Result (Unit {0})
first_error (err e) second = err e
first_error (ok _) second = second

module _ {W : Type 0} (duration_text : ℕ → String) (host : Host W) where
  -- `syncNetworkState`
  unfoldable pub sync_network_state : Action (App W) (Unit {0})
  sync_network_state = do
    wifi ← network duration_text host (wifi_status host)
    set_wifi duration_text host wifi
    vpn ← network duration_text host (vpn_status host)
    call duration_text host (set_vpn_state vpn.state)

  abbrev pub cleanup_if : Bool → Action (App W) (Unit {0})
  cleanup_if true = do
    cleaned ← try (network duration_text host (Vpn.cleanup host))
    allowed (λ e. wrap "startup cleanup: " e "") cleaned
  cleanup_if false = pure tt

  -- `runService` up to the start of its goroutines
  unfoldable pub prepare_service : Action (App W) (Unit {0})
  unfolding is_command_unavailable
  prepare_service = do
    recovered ← call duration_text host (recover_after_boot host)
    snap ← call duration_text host (snapshot host)
    cleanup_if (recovered || not snap.has_session)
    synced ← try sync_network_state
    allowed (λ e. e) synced

  -- The goroutines: `served` is what the server of the local interface returns, and `server_first`
  -- whether it returns before the runtime's service does. `meanwhile` is all that the others do until the
  -- context is done, which the first error causes too.
  unfoldable pub serve : (Agent W → Agent W) → Bool → Result (Unit {0}) → Action (App W) (Unit {0})
  unfolding first_error
  serve meanwhile server_first served = do
    ran ← try (call duration_text host (run_service host meanwhile))
    λ a. (if server_first then first_error served ran else first_error ran served, a)

  -- `runService`
  unfoldable pub run_service_mode :
      (Agent W → Agent W) → Bool → Result (Unit {0}) → Action (App W) (Unit {0})
  unfolding prepare_service serve
  run_service_mode meanwhile server_first served = do
    prepare_service
    serve meanwhile server_first served
