-- ===== src/Tests/Service.antt =====
-- A request of the only client of a small service.
use rook_servicechannel_agen.Common.{
  ◌<◌, ◌≤◌, true, false, ap, ◌∙◌, arith, [], none, refl, some, List, ◌∷◌, ◌++◌, ◌≡◌, length,
}
use rook_servicechannel_agen.Errors.{sentinel, eof}
use rook_servicechannel_agen.Action.{ok, err}
use rook_servicechannel_agen.Ipc.Contract.{Action, Request}
use rook_servicechannel_agen.Ipc.Reply.{Reply}
use rook_servicechannel_agen.Ipc.Server.{handle_request}
use rook_servicechannel_agen.Ipc.Clients.{
  Message, Clients, no_clients, has, capacity, taken, take_message, add_client, close_all_clients,
}
use rook_servicechannel_agen.Ipc.Clients.Laws.{IsValid, no_clients-IsValid, add_client-IsValid}
use rook_servicechannel_agen.Ipc.Clients.Steps.{Reach, Step}
use rook_servicechannel_agen.Ipc.Service.{Service, answer_request, take_request}
use rook_servicechannel_agen.Ipc.Service.Laws.{Follows, take_request-answered}
use rook_servicechannel_agen.Ipc.Service.Connection.{Allows, handle_client, handle_client-removed}
use rook_servicechannel_agen.Ipc.Service.Closing.{answer_request-closed}
use rook_servicechannel_agen.Tests.Toy.{Disk, toy}
use rook_servicechannel_agen.Tests.Agents.{fresh_agent}

abbrev service : Service Disk
service = record { agent = fresh_agent; clients = (add_client no_clients).1; subscription = 0 }

abbrev start_request : Request
start_request = record { id = "7"; action = Action.start_support; payload = "" }

abbrev started : Reply
started = (handle_request toy start_request fresh_agent).0

connected : IsValid service.clients
connected = add_client-IsValid no_clients no_clients-IsValid

take_request-answered_example :
    (u : Service Disk) × (take_request toy start_request service ≡ some (ok started, u))
    × Follows service.clients u.clients
    × ((s : Clients)
        → Reach u.clients s
        → has 0 s.table ≡ true
        → length (s.channels 0).buffer < 16
        → (t : Clients) × (rest : List Message) × (answer_request 0 started s ≡ some t)
          × IsValid t
          × ((t.channels 0).buffer
              ≡ (s.channels 0).buffer ++ Message.response started.response ∷ rest))
take_request-answered_example = take_request-answered toy 0 start_request service connected

is_there : has 0 service.clients.table ≡ true
unfolding add_client no_clients
is_there = refl

answer_request-closed_example : answer_request 0 started (close_all_clients service.clients) ≡ none
answer_request-closed_example = answer_request-closed 0 started connected is_there Reach.here

-- A service without clients, whose only client's writer takes a message before each answer.
abbrev empty_service : Service Disk
empty_service = record { agent = fresh_agent; clients = no_clients; subscription = 0 }

abbrev writing : Service Disk → Service Disk
writing v = record v { clients = take_message 0 v.clients }

table-taken : (ms : List Message) (s : Clients) → (taken 0 ms s).table ≡ s.table
table-taken [] s = refl
table-taken (m ∷ ms) s = refl

room_taken :
    (ms : List Message) (s : Clients)
    → (s.channels 0).buffer ≡ ms
    → length ms ≤ capacity
    → length ((taken 0 ms s).channels 0).buffer < 16
room_taken [] s e b = rw e (omega arith)
room_taken (m ∷ ms) s e b = omega arith

allows : Allows toy writing 0
unfolding take_message
allows = record {
  reach = λ v. Reach.next Reach.here (Step.write 0 refl);
  stays = λ v h. ap (λ ids. has 0 ids) (table-taken (v.clients.channels 0).buffer v.clients) ∙ h;
  room = λ v valid. room_taken (v.clients.channels 0).buffer v.clients refl (valid.bounded 0);
}

handle_client-removed_example :
    (u : Service Disk) × (handle_client toy writing
        (ok start_request ∷ err (sentinel eof) ∷ [])
        empty_service
      ≡ some u)
    × IsValid u.clients
    × (has 0 u.clients.table ≡ false)
    × ((u.clients.channels 0).closed ≡ true)
unfolding no_clients
handle_client-removed_example =
    handle_client-removed toy writing (ok start_request ∷ err (sentinel eof) ∷ []) empty_service
      no_clients-IsValid allows
