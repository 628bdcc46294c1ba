-- ===== src/App/Served/Demand.antt =====
-- Requests of the interactive mode of internal/app/app.go that ask for no value.
use rook_servicechannel_agen.Common.{String, Option, some, ◌≡◌, ap, sym}
use rook_servicechannel_agen.Action.{ok}
use rook_servicechannel_agen.Host.{Host}
use rook_servicechannel_agen.Runtime.State.{Agent}
use rook_servicechannel_agen.Ipc.Contract.{Action, ConnectWifiPayload}
use rook_servicechannel_agen.Ipc.Server.{handle_request}
use rook_servicechannel_agen.Ipc.Client.{outcome}
use rook_servicechannel_agen.Ipc.Client.RoundTrip.{raw_response}
use rook_servicechannel_agen.App.{App}
use rook_servicechannel_agen.App.Requests.{demand}
use rook_servicechannel_agen.App.Served.{served, sent_request}

module _ {W : Type 0} (host : Host W) (id : String) where
  -- Such a request leaves the service as its handler does, and prints nothing.
  pub demand-answer :
      (action : Action) (p : Option ConnectWifiPayload) (a b : App (Agent W))
      → demand (served host id) action p a ≡ (ok tt, b)
      → let r = handle_request host (sent_request host id action p) a.agent.world in
        (outcome (λ j. ok tt) tt action (some (raw_response r.0.response)) ≡ ok tt)
        × (b.agent.world ≡ r.1)
        × (b.output ≡ a.output)
  unfolding demand
  demand-answer action p a b e =
      (ap (λ r. r.0) e, sym (ap (λ r. r.1.agent.world) e), sym (ap (λ r. r.1.output) e))
