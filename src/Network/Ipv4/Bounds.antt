-- ===== src/Network/Ipv4/Bounds.antt =====
-- What `extractIPv4` of internal/network/network.go returns.
use Prim.Native.Char.{code}
use Prim.Native.String.{[] as empty_text, ◌∷◌ as char_then}
use rook_servicechannel_agen.Common.{
  ℕ, ◌+◌, ◌-◌, ◌*◌, ◌≤◌, String, none, some, List, [], ◌∷◌, ◌++◌, ◌≡◌, refl, ◌⊎◌, inl, inr, arith,
  ◌∙◌, ap, sym, Bool-cases, Option-cases, All, All-append, length,
}
use rook_servicechannel_agen.Text.{trim_space, fields_func}
use rook_servicechannel_agen.Network.Ipv4.{
  is_digit, octets, parse_ip, format_ip, first_ip, extract_ipv4, is_separator,
}

abbrev pub IsOctet : ℕ → Type 0
IsOctet n = n ≤ 255

length-snoc : (ns : List ℕ) (n : ℕ) → length (ns ++ n ∷ []) ≡ length ns + 1
length-snoc [] n = refl
length-snoc (m ∷ ns) n = ground (arith, length-snoc ns n)

snoc-IsOctet : (ns : List ℕ) (n : ℕ) → All IsOctet ns → n ≤ 255 → All IsOctet (ns ++ n ∷ [])
snoc-IsOctet ns n h k = All-append IsOctet ns (n ∷ []) h (k, tt)

octets-IsOctet :
    (s : String) (val digits : ℕ) (done ip : List ℕ)
    → val ≤ 255
    → All IsOctet done
    → octets s val digits done ≡ some ip
    → (length ip ≡ 4) × All IsOctet ip
unfolding octets
octets-IsOctet empty_text val digits done ip v h e =
    let last : (length done ≡ 3) × (done ++ val ∷ [] ≡ ip) = ground arith in
    rw (sym last.1) (length-snoc done val ∙ ap (λ n. n + 1) last.0, snoc-IsOctet done val h v)
octets-IsOctet (char_then c s) val digits done ip v h e = elim (Bool-cases (is_digit (code c))) [
  | inl d ↦
      let next = val * 10 + (code c - 48) in
      let step : (next ≤ 255) × (octets s next (digits + 1) done ≡ some ip) = ground arith in
      octets-IsOctet s next (digits + 1) done ip step.0 h step.1
  | inr d ↦
      let step : octets s 0 0 (done ++ val ∷ []) ≡ some ip = ground arith in
      octets-IsOctet s 0 0 (done ++ val ∷ []) ip (omega arith) (snoc-IsOctet done val h v) step
]

-- A field is no address, and the address of the first field that is one.
abbrev pub NoAddress : String → Type 0
NoAddress field = parse_ip (trim_space field) ≡ none

abbrev pub FirstAddress : List String → List ℕ → Type 0
FirstAddress [] ip = ⊥
FirstAddress (field ∷ fields) ip =
    (parse_ip (trim_space field) ≡ some ip) ⊎ (NoAddress field × FirstAddress fields ip)

-- What is returned of some fields.
abbrev pub IsFound : List String → String → Type 0
IsFound fields address =
    (All NoAddress fields × (address ≡ ""))
    ⊎ ((ip : List ℕ) × FirstAddress fields ip
        × (length ip ≡ 4)
        × All IsOctet ip
        × (address ≡ format_ip ip))

IsFound-next :
    (field : String) (fields : List String) (address : String)
    → NoAddress field
    → IsFound fields address
    → IsFound (field ∷ fields) address
IsFound-next field fields address bad (inl (all, e)) = inl ((bad, all), e)
IsFound-next field fields address bad (inr (ip, first, four, small, e)) =
    inr (ip, inr (bad, first), four, small, e)

first_ip-IsFound : (fields : List String) → IsFound fields (first_ip fields)
unfolding first_ip parse_ip
first_ip-IsFound [] = inl (tt, refl)
first_ip-IsFound (field ∷ fields) = elim (Option-cases (parse_ip (trim_space field))) [
  | inl bad ↦
      let same : first_ip (field ∷ fields) ≡ first_ip fields = ground arith in
      IsFound-next field fields (first_ip (field ∷ fields)) bad (rw same (first_ip-IsFound fields))
  | inr (ip, e) ↦
      let (four, small) = octets-IsOctet (trim_space field) 0 0 [] ip (omega arith) tt e in
      inr (ip, inl e, four, small, ground arith)
]

-- What is found in an output is the address of the first of its fields that is an IPv4 address, with
-- four parts that are 255 at most each; or no field is an address, and the empty text is returned.
pub extract_ipv4-IsFound :
    (output : String) → IsFound (fields_func is_separator output) (extract_ipv4 output)
unfolding extract_ipv4
extract_ipv4-IsFound output = first_ip-IsFound (fields_func is_separator output)
