-- ===== src/Ipc/Clients.antt =====
-- The clients of internal/ipc/server.go: the table of the connected ones, and the channel from
-- which each one's writer takes its messages.
pub mod Laws
pub mod Broadcast
pub mod Steps
use rook_servicechannel_agen.Common.{
  ℕ, ◌+◌, Bool, true, false, Option, none, some, List, [], ◌∷◌, ◌++◌, any, length, ltb, ◌==◌,
  if◌then◌else◌,
}
use rook_servicechannel_agen.Ipc.Contract.{Event, Response}

-- What is sent over a channel.
pub data Message : Type 0 where
  response : Response → Message
  event : Event → Message

-- `outbound`, a Go channel: the messages in its buffer, and whether it was closed.
pub record Channel : Type 0 where
  pub buffer : List Message
  pub closed : Bool

abbrev pub capacity : ℕ
capacity = 16

-- The ids in the map of clients, the next id, and the channel of every client that there was; a
-- channel lives on while a goroutine holds it.
pub record Clients : Type 0 where
  pub table : List ℕ
  pub next_id : ℕ
  pub channels : ℕ → Channel

-- `NewServer`
unfoldable pub no_clients : Clients
no_clients = record {
  table = [];
  next_id = 0;
  channels = λ id. record { buffer = []; closed = false };
}

abbrev pub set_channel : ℕ → Channel → (ℕ → Channel) → ℕ → Channel
set_channel id ch channels j = if j == id then ch else channels j

-- Whether the map has an id.
abbrev pub has : ℕ → List ℕ → Bool
has id ids = any (λ j. id == j) ids

abbrev pub drop_id : ℕ → List ℕ → List ℕ
drop_id id [] = []
drop_id id (j ∷ r) = if id == j then drop_id id r else j ∷ drop_id id r

-- `close` of channels that are open
abbrev pub close_all : List ℕ → (ℕ → Channel) → ℕ → Channel
close_all [] channels = channels
close_all (id ∷ ids) channels =
    close_all ids (set_channel id (record (channels id) { closed = true }) channels)

-- `addClient`
unfoldable pub add_client : Clients → ℕ × Clients
add_client s = (
  s.next_id,
  record {
    table = s.table ++ s.next_id ∷ [];
    next_id = s.next_id + 1;
    channels = set_channel s.next_id (record { buffer = []; closed = false }) s.channels;
  },
)

-- `removeClient`
unfoldable pub remove_client : ℕ → Clients → Clients
remove_client id s =
    if has id s.table
    then record s { table = drop_id id s.table; channels = close_all (id ∷ []) s.channels }
    else s

-- `closeAllClients`
unfoldable pub close_all_clients : Clients → Clients
close_all_clients s = record s { table = []; channels = close_all s.table s.channels }

-- A channel that gets an event if its buffer has room.
abbrev pub offered : Event → Channel → Channel
offered e ch =
    if ltb (length ch.buffer) capacity then record ch { buffer = ch.buffer ++ event e ∷ [] } else ch

-- The `select` with a default; a send on a closed channel panics (`none`).
abbrev pub offer : Event → ℕ → (ℕ → Channel) → Option (ℕ → Channel)
offer e id channels =
    if (channels id).closed then none else some (set_channel id (offered e (channels id)) channels)

-- The loop of `broadcast` over the clients that it copied from the table.
unfoldable pub offer_all : Event → List ℕ → (ℕ → Channel) → Option (ℕ → Channel)
offer_all e [] channels = some channels
offer_all e (id ∷ ids) channels = elim (offer e id channels) [
  | none ↦ none
  | some after ↦ offer_all e ids after
]

-- `broadcast`; none is a panic.
unfoldable pub broadcast : Event → Clients → Option Clients
broadcast e s = elim (offer_all e s.table s.channels) [
  | none ↦ none
  | some after ↦ some (record s { channels = after })
]

-- The writer of a client takes the next message, if there is one.
abbrev pub taken : ℕ → List Message → Clients → Clients
taken id [] s = s
taken id (m ∷ rest) s = record s {
  channels = set_channel id (record (s.channels id) { buffer = rest }) s.channels;
}

unfoldable pub take_message : ℕ → Clients → Clients
take_message id s = taken id (s.channels id).buffer s

abbrev pub sent : ℕ → Response → Clients → Clients
sent id r s = record s {
  channels =
      set_channel id (record (s.channels id) { buffer = (s.channels id).buffer ++ response r ∷ [] })
        s.channels;
}

-- The answer to a request, which `handleClient` sends as soon as the buffer has room; none is the
-- panic of a send on a closed channel.
unfoldable pub send_response : ℕ → Response → Clients → Option Clients
send_response id r s =
    if (s.channels id).closed
    then none
    else some (record s {
      channels =
          set_channel id
            (record (s.channels id) { buffer = (s.channels id).buffer ++ response r ∷ [] })
            s.channels;
    })
