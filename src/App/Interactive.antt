-- ===== src/App/Interactive.antt =====
-- internal/app/app.go: the loop of the interactive mode.
use Prim.Native.String.{◌++◌ as concat}
use rook_servicechannel_agen.Common.{String, Option, none, some, if◌then◌else◌}
use rook_servicechannel_agen.Text.{is_empty, trim_space}
use rook_servicechannel_agen.Errors.{Error, message, is, eof, wrap}
use rook_servicechannel_agen.Action.{Result, ok, err, Action}
use rook_servicechannel_agen.App.{App, write, write_line}
use rook_servicechannel_agen.App.Requests.{Connection, handle_interactive_command}

-- What a `select` of the loop receives, and what ends the loop: the context, an error of the client
-- or of the standard input, or the end of the input. A channel that was closed gives the empty
-- receives.
pub data Input : Type 0 where
  errors_closed events_closed : Input
  event_line line : String → Input

pub data Ending : Type 0 where
  context_done end_of_input : Ending
  client_error scan_error : Error → Ending

-- A run of the loop, by what is received in each round.
pub data Script : Type 0 where
  ends : Ending → Script
  then_next : Input → Script → Script

module _ {W : Type 0} (connection : Connection W) where
  -- What the loop does with the result of a command: `some` is what it returns.
  abbrev pub after_command : Result (Unit {0}) → App W → Option (Result (Unit {0})) × App W
  after_command (ok _) a = (none, a)
  after_command (err e) a =
      if is eof e
      then (some (ok tt), a)
      else (none, (write (concat "error: " (concat (message e) "\n")) a).1)

  abbrev pub run_command : String → App W → Option (Result (Unit {0})) × App W
  run_command command a =
      if is_empty command
      then (none, a)
      else let (r, b) = handle_interactive_command connection command a in after_command r b

  -- A round of the loop
  unfoldable pub take_input : Input → App W → Option (Result (Unit {0})) × App W
  unfolding handle_interactive_command is message
  take_input Input.errors_closed a = (none, a)
  take_input Input.events_closed a = (none, a)
  take_input (Input.event_line s) a = (none, (write (concat "\n" (concat s "\n")) a).1)
  take_input (Input.line s) a = run_command (trim_space s) a

  abbrev pub finish : Ending → Action (App W) (Unit {0})
  finish Ending.context_done a = write_line "\ninteractive mode stopped" a
  finish Ending.end_of_input a = write_line "\ninteractive mode ended" a
  finish (Ending.client_error e) a = (err e, a)
  finish (Ending.scan_error e) a = (err e, a)

  abbrev pub continue :
      (App W → Result (Unit {0}) × App W)
      → Option (Result (Unit {0}))
      → App W
      → Result (Unit {0}) × App W
  continue k none b = k b
  continue k (some r) b = (r, b)

  -- The loop of `runInteractive`
  unfoldable pub interactive_loop : Script → Action (App W) (Unit {0})
  unfolding take_input
  interactive_loop (ends e) a = finish e (write "rook> " a).1
  interactive_loop (then_next i s) a =
      let (r, b) = take_input i (write "rook> " a).1 in continue (interactive_loop s) r b

abbrev greeting : String
greeting = "Entering interactive mode. Connected to service. Type 'help' for commands."

-- `runInteractive`, by what `DialClient` returns
unfoldable pub run_interactive :
    {W : Type 0} → Result (Connection W) → Script → Action (App W) (Unit {0})
unfolding interactive_loop
run_interactive (err e) script a = (
  err (
      wrap
        (concat "interactive mode requires a running service on "
          (concat a.config.socket_path ": "))
        e ""),
  a,
)
run_interactive (ok connection) script a =
    interactive_loop connection script (write_line greeting a).1
