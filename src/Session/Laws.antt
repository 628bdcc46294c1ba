-- ===== src/Session/Laws.antt =====
-- The session state file: what was saved is loaded, what was cleared is gone, and what is loaded
-- is valid.
use Prim.Native.String.{[], ◌∷◌}
use rook_servicechannel_agen.Common.{String, true, none, some, ◌≡◌, refl, arith}
use rook_servicechannel_agen.Errors.{Error, sentinel, state_not_found, is, not_exist}
use rook_servicechannel_agen.Action.{Result, ok, err, of_result, wrap_error, >>=-eq-ok}
use rook_servicechannel_agen.Host.{Host}
use rook_servicechannel_agen.Session.Files.{Laws}
use rook_servicechannel_agen.Backend.Contract.{SupportSession, validate_session}
use rook_servicechannel_agen.Backend.Client.{unmarshal}
use rook_servicechannel_agen.Session.Store.{
  State, Store, encode_state, decode_state, read_state, load_error, save, load, clear,
}

decode-encode :
    (session : SupportSession) (boot_id : String)
    → let s : State = record { session = session; boot_id = boot_id } in
      decode_state (encode_state s) ≡ some s
unfolding decode_state encode_state
decode-encode session [] = refl
decode-encode session (c ∷ b) = refl

-- A state is decoded from its JSON value as it was, whether it has a boot id or not.
pub decode_state-encode_state : (s : State) → decode_state (encode_state s) ≡ some s
decode_state-encode_state s = decode-encode s.session s.boot_id

module _ {W : Type 0} (host : Host W) where
  -- A state is returned only if its session is valid.
  read_state-valid :
      (payload : String) {s : State}
      → read_state host payload ≡ ok s
      → validate_session s.session ≡ none
  unfolding read_state
  read_state-valid payload e = ground arith

  -- What is loaded has a valid session.
  pub load-valid :
      (store : Store) (w w' : W) {s : State}
      → load host store w ≡ (ok s, w')
      → validate_session s.session ≡ none
  unfolding load
  load-valid store w w' {s} e =
      let (payload, u, read, rest) =
        >>=-eq-ok (wrap_error (load_error host) (host.read_file store.file))
          (λ payload. of_result (read_state host payload)) w e in
      read_state-valid payload {s = s} (ground arith)

module _ {W : Type 0} (host : Host W) (laws : Laws host) where
  abbrev printed : State → String
  printed s = host.print_indented (encode_state s)

  read_state-printed :
      (s : State) → validate_session s.session ≡ none → read_state host (printed s) ≡ ok s
  unfolding read_state unmarshal
  read_state-printed s h = ground (arith, laws.parse_print s, decode_state-encode_state s)

  save-written :
      (store : Store) (s : State) (w w' : W)
      → save host store s w ≡ (ok tt, w')
      → (validate_session s.session ≡ none)
        × (v : W) × (host.write_file store.file (printed s) v ≡ (ok tt, w'))
  unfolding save
  save-written store s w w' e =
      (ground arith, (host.mkdir_all (host.dir store.file) w).1, ground arith)

  -- A state that was saved is what is loaded, and the load changes nothing.
  pub load-save :
      (store : Store) (s : State) (w w' : W)
      → save host store s w ≡ (ok tt, w')
      → load host store w' ≡ (ok s, w')
  unfolding load
  load-save store s w w' e =
      let (valid, v, written) = save-written store s w w' e in
      ground
        (arith, laws.read_written store.file (printed s) v w' written, read_state-printed s valid)

  -- A read of a file that does not exist.
  load_missing :
      (store : Store) (w : W) {x : Error}
      → host.read_file store.file w ≡ (err x, w)
      → is not_exist x ≡ true
      → load host store w ≡ (err (sentinel state_not_found), w)
  unfolding load
  load_missing store w e n = ground arith

  clear-removed :
      (store : Store) (w w' : W) (p : Result (Unit {0}) × W)
      → host.remove store.file w ≡ p
      → clear host store w ≡ (ok tt, w')
      → (x : Error) × (host.read_file store.file w' ≡ (err x, w')) × (is not_exist x ≡ true)
  unfolding clear
  clear-removed store w w' (ok _, u) r e = laws.read_removed store.file w w' (ground arith)
  clear-removed store w w' (err x, u) r e =
      laws.read_missing store.file w w' {e = x} (ground arith) (ground arith)

  -- After a successful clear there is no state: the file was removed, or was not there.
  pub load-clear :
      (store : Store) (w w' : W)
      → clear host store w ≡ (ok tt, w')
      → load host store w' ≡ (err (sentinel state_not_found), w')
  load-clear store w w' e =
      let (x, missing, n) = clear-removed store w w' (host.remove store.file w) refl e in
      load_missing store w' missing n
