-- ===== src/Session/Files.antt =====
-- What the session store relies on of the host: files keep what was written to them, a removed
-- file does not exist, and the text of a state is read back as the state's JSON value.
use rook_servicechannel_agen.Common.{String, ◌≡◌, true}
use rook_servicechannel_agen.Errors.{Error, not_exist, is}
use rook_servicechannel_agen.Action.{Result, ok, err}
use rook_servicechannel_agen.Host.{Host}
use rook_servicechannel_agen.Session.Store.{State, encode_state}

pub record Laws {W : Type 0} (host : Host W) : Type 0 where
  pub read_written :
      (path s : String) (w w' : W)
      → host.write_file path s w ≡ (ok tt, w')
      → host.read_file path w' ≡ (ok s, w')
  pub read_removed :
      (path : String) (w w' : W)
      → host.remove path w ≡ (ok tt, w')
      → (e : Error) × (host.read_file path w' ≡ (err e, w')) × (is not_exist e ≡ true)
  pub read_missing :
      (path : String) (w w' : W) {e : Error}
      → host.remove path w ≡ (err e, w')
      → is not_exist e ≡ true
      → (x : Error) × (host.read_file path w' ≡ (err x, w')) × (is not_exist x ≡ true)
  pub parse_print :
      (s : State) → host.parse_json (host.print_indented (encode_state s)) ≡ ok (encode_state s)

-- A file that was read reads the same again.
pub record ReadLaws {W : Type 0} (host : Host W) : Type 0 where
  pub read_again :
      (path : String) (w w' : W) {r : Result String}
      → host.read_file path w ≡ (r, w')
      → host.read_file path w' ≡ (r, w')
