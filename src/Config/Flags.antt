-- ===== src/Config/Flags.antt =====
-- The part of Go's package flag that internal/config/config.go uses: a `FlagSet` with string and
-- boolean flags. The usage text on standard error is left out.
use Prim.Native.Char.{code}
use Prim.Native.String.{[], ◌∷◌, ◌++◌ as concat}
use rook_servicechannel_agen.Common.{
  String, Bool, true, false, ◌||◌, Option, none, some, List, [], ◌∷◌, ◌==◌, str_eq, if◌then◌else◌,
}
use rook_servicechannel_agen.Text.{is_empty, quote}
use rook_servicechannel_agen.Errors.{Error, text}
use rook_servicechannel_agen.Action.{Result, ok, err}

-- A flag by what a value of it does to the variables `C` of the set.
pub data Flag (C : Type 0) : Type 0 where
  string_var : (String → C → C) → Flag C
  bool_var : (Bool → C → C) → Flag C

-- The text up to its first equals sign, and what follows that.
unfoldable pub split_equals : String → String × Option String
split_equals [] = ([], none)
split_equals (c ∷ s) =
    let (before, after) = split_equals s in
    if code c == b'=' then ([], some s) else (c ∷ before, after)

-- An argument: it ends the flags (itself one of the remaining arguments or not), it is ill
-- formed, or it names a flag, with a value or without.
pub data Token : Type 0 where
  done : Token
  bad : Token
  named : String → Option String → Token

abbrev named_token : String → Token
named_token [] = bad
named_token (c ∷ s) =
    if code c == b'-' || code c == b'='
    then bad
    else let (rest, value) = split_equals s in named (c ∷ rest) value

-- What stands after the first dash.
abbrev after_dash : String → Token
after_dash [] = done
after_dash (c ∷ s) =
    if code c == b'-' then (if is_empty s then done else named_token s) else named_token (c ∷ s)

unfoldable pub classify : String → Token
unfolding split_equals
classify [] = done
classify (c ∷ s) = if code c == b'-' then after_dash s else done

-- `strconv.ParseBool`
unfoldable pub parse_bool : String → Option Bool
parse_bool s =
    if str_eq s "1"
      || str_eq s "t"
      || str_eq s "T"
      || str_eq s "TRUE"
      || str_eq s "true"
      || str_eq s "True"
    then some true
    else if str_eq s "0"
        || str_eq s "f"
        || str_eq s "F"
        || str_eq s "FALSE"
        || str_eq s "false"
        || str_eq s "False"
    then some false
    else none

module _ {C : Type 0} (lookup : String → Option (Flag C)) where
  abbrev set_bool : String → String → (Bool → C → C) → C → Result C
  set_bool name value set c = elim (parse_bool value) [
    | some b ↦ ok (set b c)
    | none ↦ err (
        text (
          concat "invalid boolean value "
            (concat (quote value) (concat " for -" (concat name ": parse error")))))
  ]

  abbrev unknown_flag : String → Error
  unknown_flag name =
      if str_eq name "help" || str_eq name "h"
      then text "flag: help requested"
      else text (concat "flag provided but not defined: -" name)

  -- One flag. `next` is the argument after it, if there is one; `go_on` parses from there, and
  -- `skip` from behind it.
  abbrev apply_flag :
      String
      → Option String
      → Option String
      → (C → Result C)
      → (C → Result C)
      → C
      → Option (Flag C)
      → Result C
  apply_flag name value next go_on skip c none = err (unknown_flag name)
  apply_flag name (some v) next go_on skip c (some (string_var set)) = go_on (set v c)
  apply_flag name none (some v) go_on skip c (some (string_var set)) = skip (set v c)
  apply_flag name none none go_on skip c (some (string_var set)) =
      err (text (concat "flag needs an argument: -" name))
  apply_flag name none next go_on skip c (some (bool_var set)) = go_on (set true c)
  apply_flag name (some v) next go_on skip c (some (bool_var set)) = elim (set_bool name v set c) [
    | ok c' ↦ go_on c'
    | err e ↦ err e
  ]

  abbrev apply_token :
      String → Token → Option String → (C → Result C) → (C → Result C) → C → Result C
  apply_token arg done next go_on skip c = ok c
  apply_token arg bad next go_on skip c = err (text (concat "bad flag syntax: " arg))
  apply_token arg (named name value) next go_on skip c =
      apply_flag name value next go_on skip c (lookup name)

  -- `FlagSet.Parse`
  unfoldable pub parse_flags : List String → C → Result C
  unfolding classify parse_bool
  parse_flags [] c = ok c
  parse_flags (arg ∷ []) c = apply_token arg (classify arg) none (λ c'. ok c') (λ c'. ok c') c
  parse_flags (arg ∷ v ∷ args) c =
      apply_token arg (classify arg) (some v) (λ c'. parse_flags (v ∷ args) c')
        (λ c'. parse_flags args c') c
