-- ===== src/Tests/Clients.antt =====
-- Clients that come, are told an event, and go.
use rook_servicechannel_agen.Common.{
  ℕ, ◌≤◌, none, some, ◌≡◌, refl, length, ltb, ◌&&◌, [], ◌∷◌, ◌++◌, if◌then◌else◌,
}
use rook_servicechannel_agen.Ipc.Contract.{Event, error_raised, empty}
use rook_servicechannel_agen.Ipc.Clients.{
  Clients, event, has, no_clients, add_client, remove_client, broadcast, offer_all,
}
use rook_servicechannel_agen.Ipc.Clients.Broadcast.{offer_all-removed}
use rook_servicechannel_agen.Ipc.Clients.Steps.{add, Reach, here, next, Reach-broadcast}

abbrev news : Event
news = record { event = error_raised; payload = empty }

abbrev two_clients : Clients
two_clients = (add_client (add_client no_clients).1).1

two_come : Reach no_clients two_clients
two_come = next (next here (add refl)) (add refl)

Reach-broadcast_example :
    ((j : ℕ) → length (two_clients.channels j).buffer ≤ 16)
    × (t : Clients) × (broadcast news two_clients ≡ some t)
    × (t.table ≡ two_clients.table)
    × ((j : ℕ)
        → t.channels j ≡ (
            if has j two_clients.table && ltb (length (two_clients.channels j).buffer) 16
            then record (two_clients.channels j) {
              buffer = (two_clients.channels j).buffer ++ event news ∷ [];
            }
            else two_clients.channels j))
Reach-broadcast_example = Reach-broadcast news two_come

offer_all-removed_example :
    offer_all news two_clients.table (remove_client 1 two_clients).channels ≡ none
unfolding add_client no_clients
offer_all-removed_example = offer_all-removed news 1 two_clients refl
