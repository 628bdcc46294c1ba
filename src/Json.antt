-- ===== src/Json.antt =====
-- JSON values, and the part of Go's package encoding/json that fills a struct from one: a field
-- is chosen by its key up to case, null leaves it as it is, the last of several equal keys
-- counts, unknown keys are skipped, and a value of another kind is an error (`none`).
-- The text of a value is printed and read by a codec of the host (Host.antt).
use Prim.Native.Char.{code}
use Prim.Native.String.{[], ◌∷◌}
use rook_servicechannel_agen.Common.{
  ℕ, ◌-◌, String, Bool, true, false, ◌&&◌, Option, none, some, [], ◌∷◌, leb, ◌==◌, if◌then◌else◌,
}

mutual
  pub data Json : Type 0 where
    null : Json
    bool : Bool → Json
    num : String → Json
    str : String → Json
    arr : Items → Json
    obj : Fields → Json

  pub data Items : Type 0 where
    nil : Items
    cons : Json → Items → Items

  pub data Fields : Type 0 where
    end : Fields
    field : String → Json → Fields → Fields

-- Case folding, as far as it can reach an ASCII letter: the long s and the Kelvin sign do.
fold_code : ℕ → ℕ
fold_code c =
    if leb b'a' c && leb c b'z'
    then c - 32
    else if c == 0x17f
    then b'S'
    else if c == 0x212a
    then b'K'
    else c

-- A key of the text names a field of the struct (whose name is ASCII).
unfoldable pub names_field : String → String → Bool
unfolding fold_code
names_field [] [] = true
names_field [] (_ ∷ _) = false
names_field (_ ∷ _) [] = false
names_field (c ∷ s) (d ∷ t) = fold_code (code c) == fold_code (code d) && names_field s t

-- A field of type string.
unfoldable pub decode_string : Json → String → Option String
decode_string null old = some old
decode_string (str s) old = some s
decode_string _ old = none

-- A struct whose fields are set one at a time by `set`; `none` is an error of some field.
unfoldable pub decode_fields {ℓ} :
    {A : Type ℓ} → (String → Json → A → Option A) → Fields → A → Option A
decode_fields set end a = some a
decode_fields set (field key v fs) a = elim (set key v a) [
  | none ↦ none
  | some b ↦ decode_fields set fs b
]

unfoldable pub decode_struct {ℓ} :
    {A : Type ℓ} → (String → Json → A → Option A) → Json → A → Option A
unfolding decode_fields
decode_struct set null a = some a
decode_struct set (obj fs) a = decode_fields set fs a
decode_struct set _ a = none
