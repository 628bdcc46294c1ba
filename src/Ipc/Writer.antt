-- ===== src/Ipc/Writer.antt =====
-- internal/ipc/server.go: `writeLoop`, which sends what a client's channel holds over its connection.
pub mod Entered
pub mod Order
use rook_servicechannel_agen.Common.{ℕ, Bool, true, false, List, [], ◌∷◌}
use rook_servicechannel_agen.Action.{Result, ok, err, Action}
use rook_servicechannel_agen.Json.{Json}
use rook_servicechannel_agen.Ipc.Clients.{Message, response, event, Clients, take_message}
use rook_servicechannel_agen.Ipc.Wire.{encode_response, encode_event}

abbrev pub encode_message : Message → Json
encode_message (response r) = encode_response r
encode_message (event e) = encode_event e

-- The clients, the connection of one of them, and whether its writer has not returned.
pub record Line (C : Type 0) : Type 0 where
  pub clients : Clients
  pub conn : C
  pub writing : Bool

-- Whether the loop goes on after an `Encode`
abbrev goes_on : Result (Unit {0}) → Bool
goes_on (ok _) = true
goes_on (err e) = false

-- After an `Encode` of a message that was taken.
abbrev pub encoded : {C : Type 0} → ℕ → Line C → Result (Unit {0}) × C → Line C
encoded id l (r, conn) = record {
  clients = take_message id l.clients;
  conn = conn;
  writing = goes_on r;
}

-- `encode` is the `Encode` of the connection's encoder.
module _ {C : Type 0} (encode : Json → Action C (Unit {0})) where
  abbrev pub written : ℕ → List Message → Line C → Line C
  written id [] l = l
  written id (m ∷ rest) l = encoded id l (encode (encode_message m) l.conn)

  -- One round of `writeLoop`, which waits while the channel is empty.
  unfoldable pub write_next : ℕ → Line C → Line C
  unfolding take_message
  write_next id l = written id (l.clients.channels id).buffer l
