-- ===== src/Network/Exec.antt =====
-- `ExecRunner` of internal/network/network.go, which runs a command and puts what it printed into the
-- error, where the managers look for the words that mean that nothing is wrong.
use Prim.Native.String.{[], ◌∷◌, ◌++◌ as concat}
use text.Mathlib.TextLemmas.{nil-append, cons-append}
use rook_servicechannel_agen.Common.{
  String, Bool, true, false, ◌||◌, Option, none, some, List, [], ◌∷◌, ◌≡◌, ap, arith,
}
use rook_servicechannel_agen.Text.{trim_space, contains, join}
use rook_servicechannel_agen.Errors.{Error, sentinel, wrap, message, is, not_exist}
use rook_servicechannel_agen.Action.{Result, ok, err, Action}
use rook_servicechannel_agen.Host.{Host}
use rook_servicechannel_agen.Network.Nmcli.{disconnected}
use rook_servicechannel_agen.Network.Vpn.{
  VpnStatus, vpn_status, service_name, interface_name, status_file_path, is_inactive_service,
  is_missing_interface, assemble,
}

-- `exec.CommandContext(ctx, name, args...).CombinedOutput()`: the output and an error.
abbrev pub Exec : Type 0 → Type 0
Exec W = String → List String → W → (String × Option Error) × W

abbrev ran : String → List String → String × Option Error → Result String
ran name args (output, none) = ok output
ran name args (output, some e) = err (
    wrap (concat name (concat " " (concat (join args " ") ": "))) e
      (concat ": " (trim_space output)))

module _ {W : Type 0} (exec : Exec W) where
  -- `ExecRunner.Run`
  unfoldable pub exec_run : String → List String → Action W String
  unfolding join trim_space
  exec_run name args w = let (p, w') = exec name args w in (ran name args p, w')

  -- The runner that a manager uses that is given a runner or nil.
  abbrev chosen :
      Option (String → List String → Action W String) → String → List String → Action W String
  chosen none = exec_run
  chosen (some runner) = runner

  -- `NewWiFiManager`; a manager is known by the host that its methods run on.
  unfoldable pub new_wifi_manager :
      Option (String → List String → Action W String) → Host W → Host W
  unfolding exec_run
  new_wifi_manager runner host = record host { run = chosen runner }

  -- `NewVPNManager`, with `os.ReadFile`
  unfoldable pub new_vpn_manager : Option (String → List String → Action W String) → Host W → Host W
  unfolding exec_run
  new_vpn_manager runner host = record host { run = chosen runner; read_file = host.read_file }

contains-concat : (p s t : String) → contains s t ≡ true → contains (concat p s) t ≡ true
unfolding contains
contains-concat [] s t h = rw (nil-append s) h
contains-concat (c ∷ p) s t h = rw (cons-append c p s) (ground (arith, contains-concat p s t h))

-- What a command printed that failed is in its error.
message-ran :
    (before output t : String) (e : Error)
    → contains (trim_space output) t ≡ true
    → contains (message (wrap before e (concat ": " (trim_space output)))) t ≡ true
unfolding message
message-ran before output t e h =
    let tail = contains-concat ": " (trim_space output) t h in
    contains-concat before _ t (contains-concat (message e) _ t tail)

-- The words that mean that the service is not running, and that there is no interface.
abbrev pub names_stopped : String → Bool
names_stopped s = contains s "inactive" || contains s "failed" || contains s "unknown"

abbrev pub names_no_interface : String → Bool
names_no_interface s = contains s "does not exist" || contains s "Cannot find device"

is_inactive_service-ran :
    (before output : String) (e : Error)
    → names_stopped (trim_space output) ≡ true
    → is_inactive_service (wrap before e (concat ": " (trim_space output))) ≡ true
unfolding is_inactive_service
is_inactive_service-ran before output e h = ground (
  arith,
  message-ran before output "inactive" e,
  message-ran before output "failed" e,
  message-ran before output "unknown" e,
)

is_missing_interface-ran :
    (before output : String) (e : Error)
    → names_no_interface (trim_space output) ≡ true
    → is_missing_interface (wrap before e (concat ": " (trim_space output))) ≡ true
unfolding is_missing_interface
is_missing_interface-ran before output e h = ground (
  arith,
  message-ran before output "does not exist" e,
  message-ran before output "Cannot find device" e,
)

abbrev is_active : List String
is_active = "is-active" ∷ service_name ∷ []

abbrev show_address : List String
show_address = "-o" ∷ "-4" ∷ "addr" ∷ "show" ∷ "dev" ∷ interface_name ∷ []

-- The status of a VPN that is down.
abbrev pub no_vpn : VpnStatus
no_vpn = record {
  state = disconnected;
  service_active = false;
  interface_present = false;
  ip_address = "";
  status_file_present = false;
}

vpn_status-down :
    {W : Type 0} (host : Host W) (w w1 w2 w3 : W) (e f : Error)
    → host.run "systemctl" is_active w ≡ (err e, w1)
    → is_inactive_service e ≡ true
    → host.run "ip" show_address w1 ≡ (err f, w2)
    → is_missing_interface f ≡ true
    → host.read_file status_file_path w2 ≡ (err (sentinel not_exist), w3)
    → vpn_status host w ≡ (ok no_vpn, w3)
unfolding vpn_status is trim_space assemble
vpn_status-down host w w1 w2 w3 e f asked down looked absent no_file = ground arith

module _ {W : Type 0} (exec : Exec W) (host : Host W) where
  -- The VPN manager that was made without a runner reports a disconnected VPN without service,
  -- interface, address and status file, and not an error,
  -- where systemctl fails and prints that the service is inactive, failed or unknown, ip fails and
  -- prints that there is no such interface, and there is no status file: it looks for these words in
  -- the error, where the runner puts what the command printed.
  pub vpn_status-stopped :
      (w w1 w2 w3 : W) (printed shown : String) (e f : Error)
      → exec "systemctl" is_active w ≡ ((printed, some e), w1)
      → names_stopped (trim_space printed) ≡ true
      → exec "ip" show_address w1 ≡ ((shown, some f), w2)
      → names_no_interface (trim_space shown) ≡ true
      → host.read_file status_file_path w2 ≡ (err (sentinel not_exist), w3)
      → vpn_status (new_vpn_manager exec none host) w ≡ (ok no_vpn, w3)
  unfolding exec_run new_vpn_manager
  vpn_status-stopped w w1 w2 w3 printed shown e f asked down looked absent no_file =
      vpn_status-down (new_vpn_manager exec none host) w w1 w2 w3 _ _
        (ap (λ p. (ran "systemctl" is_active p.0, p.1)) asked)
        (is_inactive_service-ran _ printed e down)
        (ap (λ p. (ran "ip" show_address p.0, p.1)) looked)
        (is_missing_interface-ran _ shown f absent) no_file
