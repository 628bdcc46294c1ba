-- ===== src/App/Loop.antt =====
-- How the interactive mode of internal/app/app.go ends.
use Prim.Native.String.{◌++◌ as concat}
use rook_servicechannel_agen.Common.{
  String, Option, none, some, ◌≡◌, refl, ap, inl, inr, arith, Bool-cases,
}
use rook_servicechannel_agen.Text.{is_empty, trim_space}
use rook_servicechannel_agen.Errors.{Error, wrap, is, eof}
use rook_servicechannel_agen.Action.{Result, ok, err}
use rook_servicechannel_agen.App.{App, write}
use rook_servicechannel_agen.App.Requests.{Connection, handle_interactive_command}
use rook_servicechannel_agen.App.Interactive.{
  Input, Ending, Script, ends, then_next, take_input, continue, after_command, run_command,
  interactive_loop, run_interactive,
}

abbrev pub ending : Script → Ending
ending (ends e) = e
ending (then_next i s) = ending s

-- What ends the loop with an error.
abbrev pub IsFailure : Error → Ending → Type 0
IsFailure e Ending.context_done = ⊥
IsFailure e Ending.end_of_input = ⊥
IsFailure e (Ending.client_error x) = x ≡ e
IsFailure e (Ending.scan_error x) = x ≡ e

module _ {W : Type 0} (connection : Connection W) where
  -- A command ends the loop with success, if at all.
  after_command-ok :
      (result : Result (Unit {0})) (a b : App W) (r : Result (Unit {0}))
      → after_command connection result a ≡ (some r, b)
      → r ≡ ok tt
  after_command-ok (ok x) a b r e = ground arith
  after_command-ok (err x) a b r e = elim (Bool-cases (is eof x)) [
    | inl c ↦ ground arith
    | inr c ↦ ground arith
  ]

  run_command-ok :
      (command : String) (a b : App W) (r : Result (Unit {0}))
      → run_command connection command a ≡ (some r, b)
      → r ≡ ok tt
  run_command-ok command a b r e = elim (Bool-cases (is_empty command)) [
    | inl c ↦ ground arith
    | inr c ↦
        let result = handle_interactive_command connection command a in
        after_command-ok result.0 result.1 b r (rw c at e)
  ]

  take_input-ok :
      (i : Input) (a b : App W) (r : Result (Unit {0}))
      → take_input connection i a ≡ (some r, b)
      → r ≡ ok tt
  unfolding take_input
  take_input-ok Input.errors_closed a b r e = ground arith
  take_input-ok Input.events_closed a b r e = ground arith
  take_input-ok (Input.event_line s) a b r e = ground arith
  take_input-ok (Input.line s) a b r e = run_command-ok (trim_space s) a b r e

  interactive_loop-next :
      (e : Error) (s : Script) (p : Option (Result (Unit {0})) × App W) (b : App W)
      → ((r : Result (Unit {0})) → p.0 ≡ some r → r ≡ ok tt)
      → ((c : App W) → interactive_loop connection s c ≡ (err e, b) → IsFailure e (ending s))
      → continue connection (interactive_loop connection s) p.0 p.1 ≡ (err e, b)
      → IsFailure e (ending s)
  interactive_loop-next e s (none, c) b done later h = later c h
  interactive_loop-next e s (some r, c) b done later h =
      let good : r ≡ ok tt = done r refl in ground arith

  -- No command ends the loop with an error.
  interactive_loop-IsFailure :
      (script : Script) (a b : App W) (e : Error)
      → interactive_loop connection script a ≡ (err e, b)
      → IsFailure e (ending script)
  unfolding interactive_loop
  interactive_loop-IsFailure (ends Ending.context_done) a b e h = ground arith
  interactive_loop-IsFailure (ends Ending.end_of_input) a b e h = ground arith
  interactive_loop-IsFailure (ends (Ending.client_error x)) a b e h = ground arith
  interactive_loop-IsFailure (ends (Ending.scan_error x)) a b e h = ground arith
  interactive_loop-IsFailure (then_next i s) a b e h =
      let start : App W = (write "rook> " a).1 in
      let p = take_input connection i start in
      interactive_loop-next e s p b
        (λ r same. take_input-ok i start p.1 r (ap (λ o. (o, p.1)) same))
        (λ c. interactive_loop-IsFailure s c b e) h

-- Without a service on the socket the interactive mode returns this error.
abbrev pub no_service : String → Error → Error
no_service socket_path e =
    wrap (concat "interactive mode requires a running service on " (concat socket_path ": ")) e ""

-- What the interactive mode returns and leaves, by the result of its dial.
abbrev pub IsEnd :
    {W : Type 0} → Result (Connection W) → Script → App W → Result (Unit {0}) × App W → Type 0
IsEnd (err x) script a p = p ≡ (err (no_service a.config.socket_path x), a)
IsEnd (ok connection) script a (ok _, b) = Unit {0}
IsEnd (ok connection) script a (err e, b) = IsFailure e (ending script)

loop-IsEnd :
    {W : Type 0} (connection : Connection W) (script : Script) (a b : App W)
    (p : Result (Unit {0}) × App W)
    → interactive_loop connection script b ≡ p
    → IsEnd (ok connection) script a p
loop-IsEnd connection script a b (ok _, c) e = tt
loop-IsEnd connection script a b (err x, c) e = interactive_loop-IsFailure connection script b c x e

-- The interactive mode returns an error in two cases only. If its dial failed, it returns the error
-- that a service has to run on the socket, with the error of the dial, and prints and changes
-- nothing. If the dial succeeded, it can only return the error of the client or of the standard
-- input by which its loop ends: no command ends it with an error.
pub run_interactive-IsEnd :
    {W : Type 0} (dialed : Result (Connection W)) (script : Script) (a : App W)
    → IsEnd dialed script a (run_interactive dialed script a)
unfolding run_interactive
run_interactive-IsEnd (err x) script a = refl
run_interactive-IsEnd (ok connection) script a = loop-IsEnd connection script a _ _ refl
