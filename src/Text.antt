-- ===== src/Text.antt =====
-- The functions of Go's package strings that the agent uses, over texts as sequences of code
-- points. A Go string that is valid UTF-8 and its sequence of code points correspond one to one,
-- and every separator that the agent looks for is an ASCII character.
pub mod Laws
use Prim.Native.Char.{Char, code}
use Prim.Native.String.{[], ◌∷◌, ◌++◌ as concat}
use rook_servicechannel_agen.Common.{
  ℕ, ◌+◌, String, Bool, true, false, ◌&&◌, ◌||◌, List, [], ◌∷◌, str_eq, leb, ltb, ◌==◌,
  if◌then◌else◌,
}

abbrev pub newline : ℕ
newline = 10

abbrev pub colon : ℕ
colon = b':'

abbrev pub backslash : ℕ
backslash = 92

-- `unicode.IsSpace`
unfoldable pub is_space : ℕ → Bool
is_space c =
    (leb 9 c && leb c 13)
    || c == 32
    || c == 0x85
    || c == 0xa0
    || c == 0x1680
    || (leb 0x2000 c && leb c 0x200a)
    || c == 0x2028
    || c == 0x2029
    || c == 0x202f
    || c == 0x205f
    || c == 0x3000

abbrev pub is_empty : String → Bool
is_empty [] = true
is_empty (_ ∷ _) = false

-- `strings.TrimLeftFunc`
pub trim_left : String → String
trim_left [] = []
trim_left (c ∷ s) = let rest = trim_left s in if is_space (code c) then rest else c ∷ s

-- `strings.TrimRightFunc`
abbrev keep_right : Char → String → String
keep_right c [] = if is_space (code c) then [] else c ∷ []
keep_right c (d ∷ s) = c ∷ d ∷ s

pub trim_right : String → String
trim_right [] = []
trim_right (c ∷ s) = keep_right c (trim_right s)

-- `strings.TrimSpace`
unfoldable pub trim_space : String → String
unfolding trim_left trim_right is_space
trim_space s = trim_right (trim_left s)

abbrev onto_head : Char → List String → List String
onto_head c [] = (c ∷ []) ∷ []
onto_head c (part ∷ parts) = (c ∷ part) ∷ parts

-- `strings.Split(s, "\n")`
unfoldable pub split_lines : String → List String
split_lines [] = "" ∷ []
split_lines (c ∷ s) =
    let parts = split_lines s in if code c == newline then "" ∷ parts else onto_head c parts

-- `strings.ReplaceAll(s, "\\:", ":")`
unfoldable pub unescape_colons : String → String
unescape_colons [] = []
unescape_colons (c ∷ []) = c ∷ []
unescape_colons (c ∷ d ∷ s) =
    let after = unescape_colons s in
    let later = unescape_colons (d ∷ s) in
    if code c == backslash && code d == colon then ":" ∷ after else c ∷ later

-- `strings.HasPrefix`
unfoldable pub has_prefix : String → String → Bool
has_prefix s [] = true
has_prefix [] (_ ∷ _) = false
has_prefix (c ∷ s) (d ∷ t) = code c == code d && has_prefix s t

-- `strings.Contains`
unfoldable pub contains : String → String → Bool
unfolding has_prefix
contains [] t = has_prefix [] t
contains (c ∷ s) t = has_prefix (c ∷ s) t || contains s t

-- `strings.Join`
unfoldable pub join : List String → String → String
join [] sep = ""
join (s ∷ []) sep = s
join (s ∷ t ∷ r) sep = concat s (concat sep (join (t ∷ r) sep))

-- `%q`, for a text of printable characters other than the quote and the backslash.
unfoldable pub quote : String → String
quote s = concat "\"" (concat s "\"")

-- Go's `<` on strings: UTF-8 keeps the order of the code points.
unfoldable pub less : String → String → Bool
less s [] = false
less [] (_ ∷ _) = true
less (c ∷ s) (d ∷ t) = ltb (code c) (code d) || (code c == code d && less s t)

-- The text in reverse, before another.
unfoldable pub reverse_onto : String → String → String
reverse_onto [] acc = acc
reverse_onto (c ∷ s) acc = reverse_onto s (c ∷ acc)

-- `strings.FieldsFunc(s, f)`: the runs of characters that are no separators; `run` is the run
-- being read, in reverse.
abbrev close_run : String → List String → List String
close_run [] fields = fields
close_run (c ∷ run) fields = reverse_onto (c ∷ run) [] ∷ fields

fields_from : (ℕ → Bool) → String → String → List String
fields_from sep [] run = close_run run []
fields_from sep (c ∷ s) run =
    let rest = fields_from sep s (if sep (code c) then [] else c ∷ run) in
    if sep (code c) then close_run run rest else rest

unfoldable pub fields_func : (ℕ → Bool) → String → List String
unfolding fields_from reverse_onto
fields_func sep s = fields_from sep s []

-- `unicode.ToLower`, as far as it gives an ASCII letter: the dotted capital I and the Kelvin sign
-- do.
lower_code : ℕ → ℕ
lower_code c =
    if leb b'A' c && leb c b'Z'
    then c + 32
    else if c == 0x212a
    then b'k'
    else if c == 0x130
    then b'i'
    else c

-- `strings.ToLower(s) == t` for an ASCII text t
unfoldable pub lowers_to : String → String → Bool
unfolding lower_code
lowers_to [] [] = true
lowers_to [] (_ ∷ _) = false
lowers_to (_ ∷ _) [] = false
lowers_to (c ∷ s) (d ∷ t) = lower_code (code c) == code d && lowers_to s t
