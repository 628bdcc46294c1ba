-- ===== src/Tests/Toy.antt =====
-- A small host: a disk that keeps its files, commands and a backend with fixed answers, and a
-- codec for the session state.
use Prim.Native.Char.{Char, code}
use Prim.Native.String.{[], ◌∷◌}
use rook_servicechannel_agen.Common.{
  String, Bool, Option, none, some, List, [], ◌∷◌, ◌≡◌, refl, ap, sym, ◌∙◌, arith, ◌==◌, str_eq,
  eq_iff, if◌then◌else◌,
}
use rook_servicechannel_agen.Errors.{Error, text, sentinel, is, not_exist, deadline_exceeded}
use rook_servicechannel_agen.Action.{Result, ok, err, Action}
use rook_servicechannel_agen.Json.{Json, obj, end, field}
use rook_servicechannel_agen.Host.{Host, HttpResponse}
use rook_servicechannel_agen.Backend.Contract.{SupportSession, encode_session}
use rook_servicechannel_agen.Session.Store.{State, encode_state, decode_state}
use rook_servicechannel_agen.Session.Files.{Laws, ReadLaws}
use rook_servicechannel_agen.Session.Laws.{decode_state-encode_state}

-- A text with an end, before another text.
abbrev pub mark : String → String → String
mark [] rest = "." ∷ rest
mark (c ∷ s) rest = "x" ∷ c ∷ mark s rest

abbrev longer : Char → Option (String × String) → Option (String × String)
longer c none = none
longer c (some p) = some (c ∷ p.0, p.1)

abbrev is_end : Char → Bool
is_end c = code c == b'.'

abbrev pub unmark : String → Option (String × String)
unmark [] = none
unmark (m ∷ []) = if is_end m then some ("", "") else none
unmark (m ∷ c ∷ s) = let rest = unmark s in if is_end m then some ("", c ∷ s) else longer c rest

unmark-mark : (s rest : String) → unmark (mark s rest) ≡ some (s, rest)
unmark-mark [] [] = refl
unmark-mark [] (c ∷ rest) = refl
unmark-mark (c ∷ s) rest = rw (unmark-mark s rest)

-- The four texts of a state.
abbrev print_state : State → String
print_state s =
    mark s.session.status (mark s.session.pin (mark s.session.ip_address (mark s.boot_id "")))

abbrev with_text : {A : Type 0} → Option (String × String) → (String → String → Option A) → Option A
with_text none k = none
with_text (some p) k = k p.0 p.1

abbrev pub read_text : String → Option State
read_text t = with_text (unmark t) λ status t1. with_text (unmark t1) λ pin t2.
    with_text (unmark t2) λ ip_address t3. with_text (unmark t3) λ boot_id t4. some (record {
      session = record { status = status; pin = pin; ip_address = ip_address };
      boot_id = boot_id;
    })

read_text-print_state : (s : State) → read_text (print_state s) ≡ some s
read_text-print_state s = rw (
  unmark-mark s.session.status _,
  unmark-mark s.session.pin _,
  unmark-mark s.session.ip_address _,
  unmark-mark s.boot_id _,
)

abbrev pub sample : SupportSession
sample = record { status = "open"; pin = "4711"; ip_address = "10.8.0.2" }

abbrev printed : Option State → String
printed none = "?"
printed (some s) = "s" ∷ print_state s

abbrev pub parsed : Option State → Result Json
parsed none = err (text "invalid character")
parsed (some s) = ok (encode_state s)

abbrev pub parse : String → Result Json
parse [] = err (text "unexpected end of JSON input")
parse (c ∷ t) =
    if code c == b's'
    then parsed (read_text t)
    else if code c == b'r'
    then ok (obj (field "session" (encode_session sample) end))
    else ok (obj end)

-- A disk: the content of each file that exists.
abbrev pub Disk : Type 0
Disk = String → Option String

abbrev pub put : String → Option String → Disk → Disk
put path s disk p = if str_eq p path then s else disk p

abbrev found : Option String → Result String
found none = err (sentinel not_exist)
found (some s) = ok s

abbrev removed : Option String → String → Action Disk (Unit {0})
removed none path disk = (err (sentinel not_exist), disk)
removed (some s) path disk = (ok tt, put path none disk)

abbrev third : List String → String
third (a ∷ b ∷ c ∷ r) = c
third _ = ""

abbrev answer : String → List String → Result String
answer name args =
    if str_eq name "systemctl"
    then ok "active\n"
    else if str_eq name "ip"
    then ok "5: rookvpn    inet 10.8.0.2/24 scope global rookvpn\n"
    else if str_eq (third args) "NAME,TYPE"
    then ok "lo:loopback\nrook-support-wifi:802-11-wireless\n"
    else if str_eq (third args) "SSID"
    then ok "shop\nguest\nshop\n\n"
    else if str_eq (third args) "IP4.ADDRESS"
    then ok "IP4.ADDRESS[1]:192.168.4.2/24\n"
    else ok ""

abbrev respond : String → HttpResponse
respond url = record {
  status_code = 200;
  body = if str_eq url "/api/console/1/beginsession" then ok "response" else ok "";
}

abbrev pub toy : Host Disk
toy = record {
  run = λ name args disk. (answer name args, disk);
  read_file = λ path disk. (found (disk path), disk);
  write_file = λ path s disk. (ok tt, put path (some s) disk);
  mkdir_all = λ path disk. (ok tt, disk);
  remove = λ path disk. removed (disk path) path disk;
  send = λ req disk. (ok (respond req.url), disk);
  ticks = λ disk. 2;
  context_error = λ disk. sentinel deadline_exceeded;
  parse_url = λ s. ok (record { scheme = "http"; host = "console"; whole = s });
  endpoint = λ url path. path;
  dir = λ path. "/var/lib/rook";
  print_json = λ j. "{}";
  print_indented = λ j. printed (decode_state j);
  parse_json = parse;
  shape_error = λ s. text "json: cannot unmarshal";
}

put-same : (path : String) (s : Option String) (disk : Disk) → put path s disk path ≡ s
put-same path s disk = ground (arith, eq_iff path path)

after-removed :
    (path : String) (o : Option String) (w w' : Disk)
    → removed o path w ≡ (ok tt, w')
    → found (w' path) ≡ err (sentinel not_exist)
after-removed path none w w' e = ground arith
after-removed path (some s) w w' e =
    let same : put path none w ≡ w' = ap (λ p. p.1) e in rw (sym same, put-same path none w) refl

after-missing :
    (path : String) (o : Option String) (w w' : Disk) {e : Error}
    → w path ≡ o
    → removed o path w ≡ (err e, w')
    → found (w' path) ≡ err (sentinel not_exist)
after-missing path none w w' p e = let same : w ≡ w' = ap (λ p. p.1) e in rw (sym same, p) refl
after-missing path (some s) w w' p e = ground arith

after-put : (path s : String) (w w' : Disk) → put path (some s) w ≡ w' → found (w' path) ≡ ok s
after-put path s w w' e = rw (sym e, put-same path (some s) w) refl

pub toy-Laws : Laws toy
toy-Laws = record {
  read_written = λ path s w w' e. ap (λ r. (r, w')) (after-put path s w w' (ap (λ p. p.1) e));
  read_removed = λ path w w' e. (
    sentinel not_exist,
    ap (λ r. (r, w')) (after-removed path (w path) w w' e),
    unfold is in refl,
  );
  read_missing = λ path w w' e n. (
    sentinel not_exist,
    ap (λ r. (r, w')) (after-missing path (w path) w w' refl e),
    unfold is in refl,
  );
  parse_print = λ s. rw (decode_state-encode_state s, read_text-print_state s) refl;
}

pub toy-ReadLaws : ReadLaws toy
toy-ReadLaws = record {
  read_again = λ path w w' {r} e.
      let same : w ≡ w' = ap (λ p. p.1) e in
      ap (λ v. (found (v path), w')) (sym same) ∙ ap (λ p. (p.0, w')) e;
}
