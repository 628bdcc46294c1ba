-- ===== src/Session/Store.antt =====
-- internal/sessionstate/store.go and internal/host/bootid.go: the session state file.
use rook_servicechannel_agen.Common.{String, Option, none, some, if◌then◌else◌}
use rook_servicechannel_agen.Text.{is_empty, trim_space}
use rook_servicechannel_agen.Errors.{Error, text, sentinel, wrap, is, state_not_found, not_exist}
use rook_servicechannel_agen.Action.{
  Result, ok, err, Action, pure, fail_if, of_result, try, ◌>>=◌, ◌>>◌, check, wrap_error,
}
use rook_servicechannel_agen.Json.{
  Json, str, obj, end, field, names_field, decode_string, decode_struct,
}
use rook_servicechannel_agen.Host.{Host}
use rook_servicechannel_agen.Backend.Contract.{
  SupportSession, no_session, validate_session, encode_session, decode_session,
}
use rook_servicechannel_agen.Backend.Client.{unmarshal}

pub record State : Type 0 where
  pub session : SupportSession
  pub boot_id : String

abbrev pub no_state : State
no_state = record { session = no_session; boot_id = "" }

pub record Store : Type 0 where
  pub file : String

-- `json.MarshalIndent(state)`: the boot id is left out where it is empty.
unfoldable pub encode_state : State → Json
unfolding encode_session
encode_state s = obj (
    field "session" (encode_session s.session)
      (if is_empty s.boot_id then end else field "bootId" (str s.boot_id) end))

abbrev set_state : String → Json → State → Option State
set_state key v s =
    if names_field key "session"
    then elim (decode_session v s.session) [
      | none ↦ none
      | some t ↦ some (record s { session = t })
    ]
    else if names_field key "bootId"
    then elim (decode_string v s.boot_id) [ none ↦ none | some t ↦ some (record s { boot_id = t }) ]
    else some s

unfoldable pub decode_state : Json → Option State
unfolding decode_struct names_field decode_string decode_session
decode_state j = decode_struct set_state j no_state

abbrev pub prefixed : String → Error → Error
prefixed before e = wrap before e ""

abbrev pub boot_id_path : String
boot_id_path = "/proc/sys/kernel/random/boot_id"

module _ {W : Type 0} (host : Host W) where
  -- `Store.Save`
  unfoldable pub save : Store → State → Action W (Unit {0})
  save store state = do
    wrap_error (prefixed "validate state: ") (check (validate_session state.session))
    wrap_error (prefixed "create state directory: ") (host.mkdir_all (host.dir store.file))
    wrap_error (prefixed "write state file: ")
        (host.write_file store.file (host.print_indented (encode_state state)))

  -- `Load` after the file has been read
  unfoldable pub read_state : String → Result State
  read_state payload = elim (unmarshal host decode_state payload) [
    | err e ↦ err (prefixed "decode state file: " e)
    | ok state ↦ elim (validate_session state.session) [
      | none ↦ ok state
      | some e ↦ err (prefixed "validate state file: " e)
    ]
  ]

  abbrev pub load_error : Error → Error
  load_error e = if is not_exist e then sentinel state_not_found else prefixed "read state file: " e

  -- `Store.Load`
  unfoldable pub load : Store → Action W State
  load store = do
    payload ← wrap_error load_error (host.read_file store.file)
    of_result (read_state payload)

  abbrev clear_result : Result (Unit {0}) → Result (Unit {0})
  clear_result (ok _) = ok tt
  clear_result (err e) = if is not_exist e then ok tt else err (prefixed "remove state file: " e)

  -- `Store.Clear`
  unfoldable pub clear : Store → Action W (Unit {0})
  clear store = do removed ← try (host.remove store.file); of_result (clear_result removed)

  -- `host.CurrentBootID`
  unfoldable pub current_boot_id : Action W String
  current_boot_id = do
    payload ← wrap_error (prefixed "read boot id: ") (host.read_file boot_id_path)
    fail_if (is_empty (trim_space payload)) (text "read boot id: empty value")
    pure (trim_space payload)
