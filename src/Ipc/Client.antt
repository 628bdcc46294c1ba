-- ===== src/Ipc/Client.antt =====
-- internal/ipc/client.go: the client of the local interface. A call waits on a channel that is
-- known under the call's id; one goroutine reads what the service sends.
pub mod Incoming
pub mod Laws
pub mod Operations
pub mod Delivery
pub mod Steps
pub mod Calls
pub mod Payloads
pub mod RoundTrip
pub mod Exchange
use Prim.Native.String.{◌++◌ as concat}
use rook_servicechannel_agen.Common.{
  ℕ, ◌+◌, ◌%◌, ◌^◌, String, Bool, true, false, Option, none, some, List, [], ◌∷◌, ◌++◌, ◌==◌, ltb,
  length, str_eq, ◌&&◌, not, if◌then◌else◌,
}
use rook_servicechannel_agen.Errors.{Error, text, wrap, decimal}
use rook_servicechannel_agen.Action.{Result, ok, err}
use rook_servicechannel_agen.Json.{Json}
use rook_servicechannel_agen.Ipc.Contract.{Action, action_name}
use rook_servicechannel_agen.Ipc.Client.Incoming.{
  RawResponse, RawEvent, Message, response, event, malformed, read_json,
}

-- A call's channel: it holds nothing yet, it got a response and was closed, or it was closed empty.
pub data Channel : Type 0 where
  waiting : Channel
  answered : RawResponse → Channel
  closed : Channel

-- `Client`. A call is known by its number, which `channels` maps to its channel; `in_hand` is
-- a response whose channel `readLoop` has taken from the map and not served yet; `reading` tells
-- that `readLoop` has not returned.
pub record Client : Type 0 where
  pub pending : List (String × ℕ)
  pub channels : ℕ → Channel
  pub calls : ℕ
  pub in_hand : Option (ℕ × RawResponse)
  pub events : List RawEvent
  pub errors : List Error
  pub is_closed : Bool
  pub reading : Bool

-- `DialClient` with a connection
unfoldable pub dialed : Client
dialed = record {
  pending = [];
  channels = λ n. waiting;
  calls = 0;
  in_hand = none;
  events = [];
  errors = [];
  is_closed = false;
  reading = true;
}

-- `DialClient`, by what `net.Dial("unix", socketPath)` returns
unfoldable pub dial_client : String → Result (Unit {0}) → Result Client
unfolding dialed
dial_client socket_path (ok _) = ok dialed
dial_client socket_path (err e) =
    err (wrap (concat "connect to ipc socket " (concat socket_path ": ")) e "")

-- `fmt.Sprintf("%d", atomic.AddUint64(&c.nextID, 1))` for the call of a number.
abbrev pub call_id : ℕ → String
call_id n = decimal ((n + 1) % 2 ^ 64)

-- `delete(c.pending, id)`
abbrev pub forget : String → List (String × ℕ) → List (String × ℕ)
forget id [] = []
forget id ((i, n) ∷ r) = if str_eq i id then forget id r else (i, n) ∷ forget id r

abbrev pub find : String → List (String × ℕ) → Option ℕ
find id [] = none
find id ((i, n) ∷ r) = if str_eq i id then some n else find id r

abbrev pub set_channel : ℕ → Channel → (ℕ → Channel) → ℕ → Channel
set_channel n ch channels j = if j == n then ch else channels j

-- `Request` up to the send, as one step: the call takes its number and is entered under its id.
unfoldable pub register : Client → Client
register c = record c {
  pending = (call_id c.calls, c.calls) ∷ forget (call_id c.calls) c.pending;
  channels = set_channel c.calls waiting c.channels;
  calls = c.calls + 1;
}

-- `Request` after a failed send, or when its context is done.
unfoldable pub give_up : ℕ → Client → Client
give_up n c = record c { pending = forget (call_id n) c.pending }

-- An error that is dropped where an earlier one was not read yet.
abbrev pub report : Error → Client → Client
report e c = record c { errors = if ltb (length c.errors) 1 then c.errors ++ e ∷ [] else c.errors }

abbrev pub event_capacity : ℕ
event_capacity = 32

-- A request whose payload cannot be written as JSON has taken its number only.
unfoldable pub skip_call : Client → Client
skip_call c = record c { calls = c.calls + 1 }

-- One round of `readLoop` on a message. An event waits for room, unless the client was closed: then
-- the loop returns. Where both are possible, `leave` tells which one Go picks. `none` is a wait.
abbrev pub take_call : RawResponse → Option ℕ → Client → Client
take_call r none c = c
take_call r (some n) c = record c { pending = forget r.id c.pending; in_hand = some (n, r) }

abbrev pub receive_message : Bool → Message → Client → Option Client
receive_message leave (response r) c = some (take_call r (find r.id c.pending) c)
receive_message leave (event e) c =
    if ltb (length c.events) event_capacity && not (c.is_closed && leave)
    then some (record c { events = c.events ++ e ∷ [] })
    else if c.is_closed
    then some (record c { reading = false })
    else none
receive_message leave (malformed e) c = some (report e c)

unfoldable pub receive : Bool → (String → Error) → Json → Client → Option Client
unfolding read_json
receive leave shape_error j c = receive_message leave (read_json shape_error j) c

-- The send of `readLoop` on the channel that it took, and the close of it; a send on a channel that
-- was closed, empty or after a response, panics (`none`).
abbrev pub serve : ℕ → RawResponse → Channel → Client → Option Client
serve n r waiting c =
    some (record c { channels = set_channel n (answered r) c.channels; in_hand = none })
serve n r _ c = none

abbrev pub deliver_hand : Option (ℕ × RawResponse) → Client → Option Client
deliver_hand none c = some c
deliver_hand (some (n, r)) c = serve n r (c.channels n) c

unfoldable pub deliver : Client → Option Client
deliver c = deliver_hand c.in_hand c

-- `readLoop` on an error of the connection: it reports it, unless the client was closed, and returns.
abbrev pub lost : Bool → Error → Client → Client
lost true e c = record c { reading = false }
lost false e c = record (report (wrap "read ipc message: " e "") c) { reading = false }

unfoldable pub lose : Error → Client → Client
lose e c = lost c.is_closed e c

abbrev pub close_pending : List (String × ℕ) → (ℕ → Channel) → ℕ → Channel
close_pending [] channels = channels
close_pending ((i, n) ∷ r) channels = close_pending r (set_channel n closed channels)

-- The user of the client reads an event, or an error, if there is one.
abbrev pub rest_of {ℓ} : {A : Type ℓ} → List A → List A
rest_of [] = []
rest_of (x ∷ r) = r

unfoldable pub read_event : Client → Client
read_event c = record c { events = rest_of c.events }

unfoldable pub read_error : Client → Client
read_error c = record c { errors = rest_of c.errors }

-- `Close`, which does its work once
abbrev pub closed_once : Bool → Client → Client
closed_once true c = c
closed_once false c = record c {
  pending = [];
  channels = close_pending c.pending c.channels;
  is_closed = true;
}

unfoldable pub close : Client → Client
close c = closed_once c.is_closed c

-- Whether the `select` of `Request` returns: when its context is done, or by its channel.
unfoldable pub call_returns : Bool → Channel → Bool
call_returns done waiting = done
call_returns done (answered r) = true
call_returns done closed = true

abbrev failed : Action → Option String → Error
failed action none = text (concat "ipc " (concat (action_name action) " failed"))
failed action (some msg) =
    text (concat "ipc " (concat (action_name action) (concat " failed: " msg)))

-- What `Request` returns once its channel has a response (`some`) or was closed. `decode` fills the
-- value that the caller asked for, which is `zero_value` where there is no payload.
module _ {A : Type 0} where
  unfoldable pub outcome : (Json → Result A) → A → Action → Option RawResponse → Result A
  unfolding action_name
  outcome decode zero_value action none = err (text "ipc client closed while waiting for response")
  outcome decode zero_value action (some r) =
      if r.success
      then elim r.payload [ none ↦ ok zero_value | some j ↦ decode j ]
      else err (failed action r.message)
