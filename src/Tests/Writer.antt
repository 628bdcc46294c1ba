-- ===== src/Tests/Writer.antt =====
-- A client that is answered and told an event, over a connection that takes one message.
use mathlib.Core.List.{map}
use rook_servicechannel_agen.Common.{
  String, ◌<◌, true, none, some, List, [], ◌∷◌, ◌++◌, ◌≡◌, refl, sym, ap, arith, length,
  if◌then◌else◌,
}
use rook_servicechannel_agen.Errors.{Error, text}
use rook_servicechannel_agen.Action.{ok, err, Action}
use rook_servicechannel_agen.Json.{Json}
use rook_servicechannel_agen.Ipc.Contract.{Event, error_raised, empty, Response, ping}
use rook_servicechannel_agen.Ipc.Clients.{
  Message, response, event, Clients, no_clients, set_channel, offered, sent, add_client, broadcast,
  send_response, offer_all,
}
use rook_servicechannel_agen.Ipc.Clients.Laws.{no_clients-IsValid}
use rook_servicechannel_agen.Ipc.Clients.Steps.{tell, answer}
use rook_servicechannel_agen.Ipc.Client.Incoming.{read_json}
use rook_servicechannel_agen.Ipc.Writer.{Line, write_next}
use rook_servicechannel_agen.Ipc.Writer.Order.{
  SendLaws, Reach, here, wrote, served, added_line, incoming, Reach-read,
}

abbrev encode : Json → Action (List Json) (Unit {0})
encode j [] = (ok tt, j ∷ [])
encode j (x ∷ r) = (err (text "broken pipe"), x ∷ r)

abbrev values : List Json → List Json
values js = js

sends_lem : (j : Json) (c d : List Json) → encode j c ≡ (ok tt, d) → d ≡ c ++ j ∷ []
sends_lem j [] d e = sym (ap (λ p. p.1) e)
sends_lem j (x ∷ r) d e = ground arith

fails_lem : (j : Json) (c d : List Json) {x : Error} → encode j c ≡ (err x, d) → d ≡ c
fails_lem j [] d e = ground arith
fails_lem j (y ∷ r) d e = sym (ap (λ p. p.1) e)

laws : SendLaws encode values
laws = record { sends = sends_lem; fails = λ j c d e. fails_lem j c d e }

abbrev shape_error : String → Error
shape_error s = text s

abbrev pong : Response
pong = record { id = "1"; action = ping; success = true; payload = some empty; error = none }

abbrev news : Event
news = record { event = error_raised; payload = empty }

abbrev start : Line (List Json)
start = added_line no_clients []

abbrev answered : Clients
answered = sent 0 pong start.clients

abbrev told : Clients
told = record answered {
  channels = set_channel 0 (offered news (answered.channels 0)) answered.channels;
}

can_answer : send_response 0 pong start.clients ≡ some answered
unfolding send_response add_client no_clients
can_answer = refl

can_tell : broadcast news answered ≡ some told
unfolding broadcast offer_all add_client no_clients
can_tell = refl

has_room : length (start.clients.channels 0).buffer < 16
unfolding add_client no_clients
has_room = omega arith

abbrev before : Line (List Json)
before = record { clients = told; conn = []; writing = true }

abbrev after : Line (List Json)
after = write_next encode 0 (write_next encode 0 before)

goes_on_once : (write_next encode 0 before).writing ≡ true
unfolding write_next add_client no_clients
goes_on_once = refl

-- An answer and an event enter the channel; then the writer sends the answer, and fails.
way : Reach encode values 0 start after (response pong ∷ event news ∷ [])
unfolding add_client no_clients
way =
    wrote
      (wrote
        (served (served here (answer 0 pong has_room can_answer) tt refl) (tell news can_tell) tt
          refl)
        refl)
      goes_on_once

Reach-read_example :
    (done lost : List Message) × (map (read_json shape_error) (values after.conn)
      ≡ map incoming done)
    × (response pong ∷ event news ∷ [] ≡ done ++ (lost ++ (after.clients.channels 0).buffer))
    × (length lost ≡ (if after.writing then 0 else 1))
unfolding no_clients
Reach-read_example = Reach-read laws shape_error no_clients [] no_clients-IsValid refl way
