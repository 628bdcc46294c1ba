-- ===== src/Ipc/Writer/Order.antt =====
-- The order of what a client of internal/ipc/server.go reads from its connection.
use mathlib.Core.List.{map, map-append, append_assoc}
use rook_servicechannel_agen.Common.{
  ℕ, String, ◌<◌, Bool, true, false, some, List, [], ◌∷◌, ◌++◌, ◌≡◌, refl, arith, ap, sym, ◌∙◌,
  length, ◌==◌, if◌then◌else◌,
}
use rook_servicechannel_agen.Errors.{Error}
use rook_servicechannel_agen.Action.{Result, ok, err, Action}
use rook_servicechannel_agen.Json.{Json}
use rook_servicechannel_agen.Ipc.Clients.{
  Message, response, event, Clients, add_client, take_message,
}
use rook_servicechannel_agen.Ipc.Clients.Laws.{IsValid, add_client-IsValid}
use rook_servicechannel_agen.Ipc.Clients.Steps.{Step, Step-IsValid, write}
use rook_servicechannel_agen.Ipc.Wire.{encode_payload, event_name}
use rook_servicechannel_agen.Ipc.Client.Incoming
use rook_servicechannel_agen.Ipc.Client.Incoming.{read_json}
use rook_servicechannel_agen.Ipc.Client.RoundTrip.{
  raw_response, read_json-encode_response, read_json-encode_event,
}
use rook_servicechannel_agen.Ipc.Writer.Entered.{
  entered, IsOther, take_message-entered, Step-entered,
}
use rook_servicechannel_agen.Ipc.Writer.{encode_message, Line, encoded, written, write_next}

-- The connection of a client: the values that were sent over it. A value whose `Encode` fails is none
-- of them.
pub record SendLaws {C : Type 0} (encode : Json → Action C (Unit {0})) (values : C → List Json)
    : Type 0 where
  pub sends : (j : Json) (c d : C) → encode j c ≡ (ok tt, d) → values d ≡ values c ++ j ∷ []
  pub fails : (j : Json) (c d : C) {e : Error} → encode j c ≡ (err e, d) → values d ≡ values c

-- The one message whose `Encode` failed, after which the writer returned.
abbrev IsLost : Bool → List Message → Type 0
IsLost true lost = lost ≡ []
IsLost false lost = length lost ≡ 1

length-lost :
    (on : Bool) (lost : List Message) → IsLost on lost → length lost ≡ (if on then 0 else 1)
length-lost true lost h = rw h refl
length-lost false lost h = h

module _ {C : Type 0} (encode : Json → Action C (Unit {0})) (values : C → List Json) (id : ℕ) where
  -- What becomes of a client with its connection, and the messages that entered its channel: its
  -- writer makes a round, or another goroutine works on the clients, which may close the connection but
  -- sends nothing over it.
  pub data Reach (l : Line C) : Line C → List Message → Type 0 where
    here : Reach l l []
    wrote :
        {k : Line C} {log : List Message}
        → Reach l k log
        → k.writing ≡ true
        → Reach l (write_next encode id k) log
    served :
        {k : Line C} {log : List Message} {t : Clients} {conn : C}
        → Reach l k log
        → (st : Step k.clients t) → IsOther id st
        → values conn ≡ values k.conn
        → Reach l (record { clients = t; conn = conn; writing = k.writing }) (log ++ entered id st)

  -- The messages of the log: what was sent, what was lost, and what still waits.
  record IsOrdered (k : Line C) (log : List Message) : Type 0 where
    done : List Message
    lost : List Message
    sent_values : values k.conn ≡ map encode_message done
    is_lost : IsLost k.writing lost
    order : log ≡ done ++ (lost ++ (k.clients.channels id).buffer)
    valid : IsValid k.clients
    known : id < k.clients.next_id

  served-IsOrdered :
      {k : Line C} {log : List Message} {t : Clients} {conn : C} (st : Step k.clients t)
      → IsOther id st
      → values conn ≡ values k.conn
      → IsOrdered k log
      → IsOrdered (record { clients = t; conn = conn; writing = k.writing }) (log ++ entered id st)
  served-IsOrdered {k} {log} st o c h =
      let (same, next) = Step-entered id st h.valid h.known o in
      record {
        done = h.done;
        lost = h.lost;
        sent_values = c ∙ h.sent_values;
        is_lost = h.is_lost;
        order =
            ap (λ ms. ms ++ entered id st) h.order
            ∙ append_assoc h.done (h.lost ++ (k.clients.channels id).buffer) (entered id st)
            ∙ ap (λ ms. h.done ++ ms)
                (append_assoc h.lost (k.clients.channels id).buffer (entered id st)
                  ∙ ap (λ ms. h.lost ++ ms) (sym same));
        valid = Step-IsValid st h.valid;
        known = omega arith;
      }

  lost-none :
      {k : Line C} {log : List Message} (h : IsOrdered k log) → k.writing ≡ true → h.lost ≡ []
  lost-none {k} h w = let lost : IsLost k.writing h.lost = h.is_lost in rw w at lost

  -- What the writer of a client that has taken a message leaves, by what was sent and lost of it.
  taken-IsOrdered :
      (done lost : List Message) {m : Message} {rest : List Message} {k : Line C}
      {log : List Message} {conn : C} {on : Bool} (h : IsOrdered k log)
      → k.writing ≡ true
      → (k.clients.channels id).buffer ≡ m ∷ rest
      → values conn ≡ map encode_message done
      → IsLost on lost
      → done ++ (lost ++ rest) ≡ h.done ++ (m ∷ rest)
      → IsOrdered (record { clients = take_message id k.clients; conn = conn; writing = on }) log
  taken-IsOrdered done lost {m} {rest} {k} {log} h w b c l same =
      let (left, next) = take_message-entered id k.clients b in
      let st : Step k.clients (take_message id k.clients) = write id refl in
      let before : log ≡ h.done ++ (m ∷ rest) = h.order ∙ rw (lost-none h w, b) refl in
      record {
        done = done;
        lost = lost;
        sent_values = c;
        is_lost = l;
        order = before ∙ sym same ∙ ap (λ ms. done ++ (lost ++ ms)) (sym left);
        valid = Step-IsValid st h.valid;
        known = rw next h.known;
      }

  encoded-IsOrdered :
      (laws : SendLaws encode values) (m : Message) {rest : List Message} {k : Line C}
      {log : List Message} (p : Result (Unit {0}) × C)
      → encode (encode_message m) k.conn ≡ p
      → (k.clients.channels id).buffer ≡ m ∷ rest
      → k.writing ≡ true
      → IsOrdered k log
      → IsOrdered (encoded id k p) log
  encoded-IsOrdered laws m {rest} {k} (ok tt, conn) c b w h =
      let values_now =
        laws.sends (encode_message m) k.conn conn c
        ∙ ap (λ js. js ++ encode_message m ∷ []) h.sent_values
        ∙ sym (map-append encode_message h.done (m ∷ [])) in
      taken-IsOrdered (h.done ++ m ∷ []) [] h w b values_now refl
        (append_assoc h.done (m ∷ []) rest)
  encoded-IsOrdered laws m {rest} {k} (err e, conn) c b w h =
      taken-IsOrdered h.done (m ∷ []) h w b
        (laws.fails (encode_message m) k.conn conn c ∙ h.sent_values) refl refl

  written-IsOrdered :
      (laws : SendLaws encode values) (ms : List Message) {k : Line C} {log : List Message}
      → (k.clients.channels id).buffer ≡ ms
      → k.writing ≡ true
      → IsOrdered k log
      → IsOrdered (written encode id ms k) log
  written-IsOrdered laws [] b w h = h
  written-IsOrdered laws (m ∷ rest) {k} b w h =
      encoded-IsOrdered laws m (encode (encode_message m) k.conn) refl b w h

  Reach-IsOrdered :
      (laws : SendLaws encode values) {l k : Line C} {log : List Message}
      → IsOrdered l []
      → Reach l k log
      → IsOrdered k log
  unfolding write_next
  Reach-IsOrdered laws start here = start
  Reach-IsOrdered laws start (wrote {k} r w) =
      written-IsOrdered laws (k.clients.channels id).buffer refl w (Reach-IsOrdered laws start r)
  Reach-IsOrdered laws start (served r st o c) =
      served-IsOrdered st o c (Reach-IsOrdered laws start r)

-- What a client reads of a message.
abbrev pub incoming : Message → Incoming.Message
incoming (response r) = Incoming.response (raw_response r)
incoming (event e) =
    Incoming.event
      (record { event = event_name e.event; payload = some (encode_payload e.payload) })

read_json-encode_message :
    (shape_error : String → Error) (ms : List Message)
    → map (read_json shape_error) (map encode_message ms) ≡ map incoming ms
read_json-encode_message shape_error [] = refl
read_json-encode_message shape_error (response r ∷ ms) =
    rw (read_json-encode_response shape_error r, read_json-encode_message shape_error ms) refl
read_json-encode_message shape_error (event e ∷ ms) =
    rw (read_json-encode_event shape_error e, read_json-encode_message shape_error ms) refl

-- The connection of a client that was just added.
abbrev pub added_line : {C : Type 0} → Clients → C → Line C
added_line s conn = record { clients = (add_client s).1; conn = conn; writing = true }

-- Over a connection that carries the values whose encoding succeeded: a client is added in a
-- valid state of the clients, and then rounds of its writer and other operations on the clients
-- come in any order, each from its beginning to its end. What the client reads from its
-- connection, value by value, are the first of the messages that entered its channel, which are
-- all answers to it and the events that were broadcast while it was connected and its buffer had
-- room, in their order, none of them changed, repeated or left out; the rest waits in the channel
-- in its order, but for the one message whose encoding failed, if the writer has returned.
pub Reach-read :
    {C : Type 0} {encode : Json → Action C (Unit {0})} {values : C → List Json}
    (laws : SendLaws encode values) (shape_error : String → Error) (s : Clients) (conn : C)
    {k : Line C} {log : List Message}
    → IsValid s
    → values conn ≡ []
    → Reach encode values s.next_id (added_line s conn) k log
    → (done lost : List Message) × (map (read_json shape_error) (values k.conn) ≡ map incoming done)
      × (log ≡ done ++ (lost ++ (k.clients.channels s.next_id).buffer))
      × (length lost ≡ (if k.writing then 0 else 1))
unfolding add_client
Reach-read {encode = encode} {values = values} laws shape_error s conn {k} v empty r =
    let self : (s.next_id == s.next_id) ≡ true = ground arith in
    let start : IsOrdered encode values s.next_id (added_line s conn) [] = record {
      done = [];
      lost = [];
      sent_values = empty;
      is_lost = refl;
      order = rw self refl;
      valid = add_client-IsValid s v;
      known = omega arith;
    } in
    let h = Reach-IsOrdered encode values s.next_id laws start r in
    (
      h.done,
      h.lost,
      ap (map (read_json shape_error)) h.sent_values ∙ read_json-encode_message shape_error h.done,
      h.order,
      length-lost k.writing h.lost h.is_lost,
    )
