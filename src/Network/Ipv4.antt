-- ===== src/Network/Ipv4.antt =====
-- `extractIPv4` of internal/network/network.go, with what it uses of net.ParseIP: since a colon
-- separates fields, only the dotted form of an IPv4 address can occur in a field.
pub mod Bounds
use Prim.Native.Char.{code}
use Prim.Native.String.{[], ◌∷◌, ◌++◌ as concat}
use rook_servicechannel_agen.Common.{
  ℕ, ◌+◌, ◌-◌, ◌*◌, String, Bool, ◌&&◌, ◌||◌, Option, none, some, List, [], ◌∷◌, ◌++◌, leb, ltb,
  ◌==◌, length, if◌then◌else◌,
}
use rook_servicechannel_agen.Text.{trim_space, fields_func}
use rook_servicechannel_agen.Errors.{decimal}

abbrev pub is_digit : ℕ → Bool
is_digit c = leb b'0' c && leb c b'9'

-- The rest of the text, with the value and the number of digits of the part being read, and the
-- parts before it.
pub octets : String → ℕ → ℕ → List ℕ → Option (List ℕ)
octets [] val digits done =
    if digits == 0 then none else if length done == 3 then some (done ++ val ∷ []) else none
octets (c ∷ s) val digits done =
    let more = octets s (val * 10 + (code c - b'0')) (digits + 1) done in
    let dot = octets s 0 0 (done ++ val ∷ []) in
    if is_digit (code c)
    then (if (digits == 1 && val == 0) || ltb 255 (val * 10 + (code c - b'0')) then none else more)
    else if code c == b'.'
    then (if digits == 0 || length done == 3 then none else dot)
    else none

-- `net.ParseIP(s)` where the text has no colon: the four parts of the address.
unfoldable pub parse_ip : String → Option (List ℕ)
unfolding octets
parse_ip s = octets s 0 0 []

-- `ip.String()` of an IPv4 address
unfoldable pub format_ip : List ℕ → String
unfolding decimal
format_ip [] = ""
format_ip (n ∷ []) = decimal n
format_ip (n ∷ m ∷ r) = concat (decimal n) (concat "." (format_ip (m ∷ r)))

abbrev pub is_separator : ℕ → Bool
is_separator c = c == 32 || c == 9 || c == 10 || c == 13 || c == b':' || c == b'=' || c == b'/'

-- The loop of `parseInterfaceIPv4`.
unfoldable pub first_ip : List String → String
unfolding parse_ip format_ip
first_ip [] = ""
first_ip (field ∷ fields) = elim (parse_ip (trim_space field)) [
  | none ↦ first_ip fields
  | some ip ↦ format_ip ip
]

-- `parseInterfaceIPv4`, `extractIPv4`
unfoldable pub extract_ipv4 : String → String
unfolding first_ip fields_func trim_space
extract_ipv4 output = first_ip (fields_func is_separator output)
