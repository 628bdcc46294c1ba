-- ===== src/App/Requests.antt =====
-- internal/app/app.go: the commands of the interactive mode, each with the request that it makes.
use Prim.Native.String.{◌++◌ as concat}
use rook_servicechannel_agen.Common.{String, Option, none, some, List, [], ◌∷◌, if◌then◌else◌}
use rook_servicechannel_agen.Text.{is_space, fields_func, join, lowers_to, quote}
use rook_servicechannel_agen.Errors.{Error, text, wrap, sentinel, eof}
use rook_servicechannel_agen.Action.{Result, ok, err, Action, fail, of_result, ◌>>=◌, ◌>>◌}
use rook_servicechannel_agen.Json.{Json}
use rook_servicechannel_agen.Ipc.Contract.{Action as Request, ConnectWifiPayload}
use rook_servicechannel_agen.Ipc.Contract
use rook_servicechannel_agen.Ipc.Client.{outcome}
use rook_servicechannel_agen.Ipc.Client.Incoming.{RawResponse}
use rook_servicechannel_agen.Ipc.Client.Payloads.{
  decode_status, decode_pin, decode_scan, decode_vpn, no_status, no_vpn_status,
}
use rook_servicechannel_agen.Config.{summary}
use rook_servicechannel_agen.App.{App, write_line}
use rook_servicechannel_agen.App.Print.{
  write_all, print_support_status, print_wifi_status_payload, print_vpn_status_payload, ssid_lines,
}

-- What the interactive mode has of its connection: `exchange` sends a request, and returns what its
-- channel gave, a response or nothing if it was closed, or the error of the send or of the context.
-- `shape_error` is the error of encoding/json for a value of another shape.
pub record Connection (W : Type 0) : Type 0 where
  pub exchange : Request → Option ConnectWifiPayload → Action W (Option RawResponse)
  pub shape_error : String → Error

-- `strings.Fields`
abbrev pub fields : String → List String
fields s = fields_func is_space s

abbrev help_text : String
help_text =
    "commands: help, config, start, status, pin, ping, stop, scanwifi, wifistatus, connectwifi <ssid> <password>, disconnectwifi, vpnstatus, vpnstart, vpnstop, cleanup, exit"

module _ {W : Type 0} (connection : Connection W) where
  abbrev exchanged : Request → Option ConnectWifiPayload → Action (App W) (Option RawResponse)
  exchanged action payload a =
      let (r, w) = connection.exchange action payload a.agent.world in
      (r, record a { agent = record a.agent { world = w } })

  -- `json.Unmarshal(raw.Payload, out)` in `Request`
  abbrev pub unmarshal_payload : {A : Type 0} → (Json → Option A) → Json → Result A
  unmarshal_payload decode j = elim (decode j) [
    | none ↦ err (wrap "decode ipc response payload: " (connection.shape_error "payload") "")
    | some p ↦ ok p
  ]

  -- `Request` for a value of a type, and with no value to fill.
  unfoldable pub request : {A : Type 0} → Request → (Json → Option A) → A → Action (App W) A
  unfolding outcome
  request action decode zero_value = do
    answer ← exchanged action none
    of_result (outcome (unmarshal_payload decode) zero_value action answer)

  unfoldable pub demand : Request → Option ConnectWifiPayload → Action (App W) (Unit {0})
  unfolding outcome
  demand action payload = do
    answer ← exchanged action payload
    of_result (outcome (λ j. ok tt) tt action answer)

  -- Three of the cases ask for the status.
  unfoldable pub ask_status : Request → Action (App W) Contract.StatusPayload
  unfolding request decode_status no_status
  ask_status action = request action decode_status no_status

  unfoldable pub ask_vpn : Request → Action (App W) Contract.VpnStatusPayload
  unfolding request decode_vpn no_vpn_status
  ask_vpn action = request action decode_vpn no_vpn_status

  abbrev demand_line : Request → String → Action (App W) (Unit {0})
  demand_line action line = do demand action none; write_line line

  abbrev connect_to : List String → Action (App W) (Unit {0})
  connect_to (ssid ∷ word ∷ words) = do
    demand Contract.connect_wifi (some (record { ssid = ssid; password = join (word ∷ words) " " }))
    write_line (concat "wifi connected: " ssid)
  connect_to _ = fail (text "connectwifi requires <ssid> <password>")

  -- The cases of the switch on the first word, in lower case, with the words after it.
  unfoldable pub handle_word : String → String → List String → Action (App W) (Unit {0})
  unfolding lowers_to print_support_status print_wifi_status_payload print_vpn_status_payload
      decode_pin decode_scan summary
  handle_word command word args =
      if lowers_to word "help"
      then write_line help_text
      else if lowers_to word "config"
      then (λ a. write_line (summary a.config) a)
      else if lowers_to word "start"
      then (do
        payload ← ask_status Contract.start_support
        write_all (print_support_status payload))
      else if lowers_to word "status"
      then (do payload ← ask_status Contract.get_status; write_all (print_support_status payload))
      else if lowers_to word "pin"
      then (do pin ← request Contract.get_pin decode_pin ""; write_line pin)
      else if lowers_to word "ping"
      then demand_line Contract.ping "heartbeat sent"
      else if lowers_to word "stop"
      then demand_line Contract.stop_support "session ended"
      else if lowers_to word "scanwifi"
      then (do
        networks ← request Contract.scan_wifi decode_scan []
        write_all (ssid_lines networks))
      else if lowers_to word "wifistatus"
      then (do
        payload ← ask_status Contract.get_status
        write_all (print_wifi_status_payload payload))
      else if lowers_to word "connectwifi"
      then connect_to args
      else if lowers_to word "disconnectwifi"
      then demand_line Contract.disconnect_wifi "wifi disconnected"
      else if lowers_to word "vpnstatus"
      then (do payload ← ask_vpn Contract.vpn_status; write_all (print_vpn_status_payload payload))
      else if lowers_to word "vpnstart"
      then (do payload ← ask_vpn Contract.vpn_start; write_line (concat "vpn state=" payload.state))
      else if lowers_to word "vpnstop"
      then demand_line Contract.vpn_stop "vpn stopped"
      else if lowers_to word "cleanup"
      then demand_line Contract.cleanup "cleanup completed"
      else if lowers_to word "exit"
      then (do write_line "interactive mode exited"; fail (sentinel eof))
      else if lowers_to word "quit"
      then (do write_line "interactive mode exited"; fail (sentinel eof))
      else fail (text (concat "unknown interactive command " (quote command)))

  abbrev pub handle_fields : String → List String → Action (App W) (Unit {0})
  handle_fields command [] a = (ok tt, a)
  handle_fields command (word ∷ args) a = handle_word command word args a

  -- `handleInteractiveIPCCommand`
  unfoldable pub handle_interactive_command : String → Action (App W) (Unit {0})
  handle_interactive_command command = handle_fields command (fields command)
