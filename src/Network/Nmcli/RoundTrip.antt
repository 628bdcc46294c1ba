-- ===== src/Network/Nmcli/RoundTrip.antt =====
-- `parseNMCLIConnection` reads what nmcli prints for a connection: the name, with its colons
-- escaped by a backslash, a colon, and the type.
use Prim.Native.Char.{Char, code}
use Prim.Native.String.{[], ◌∷◌, ◌++◌ as concat}
use mathlib.Core.Path.{◌≡⟨◌⟩◌, ◌∎}
use text.Mathlib.TextEquality.{Char-path}
use text.Mathlib.TextLemmas.{nil-append, cons-append, append-nil}
use rook_servicechannel_agen.Common.{
  String, false, some, ◌≡◌, refl, sym, ap, ◌∙◌, ◌==◌, ◌≢◌, arith, if◌then◌else◌, inl, inr,
  Bool-cases,
}
use rook_servicechannel_agen.Text.{
  colon, backslash, is_empty, trim_space, unescape_colons, reverse_onto,
}
use rook_servicechannel_agen.Network.Nmcli.{scan_back, parse_connection}

-- The text has no backslash.
abbrev pub NoBackslash : String → Type 0
NoBackslash [] = Unit {0}
NoBackslash (c ∷ s) = (code c ≢ backslash) × NoBackslash s

-- The text has no backslash and no colon.
abbrev pub IsPlain : String → Type 0
IsPlain [] = Unit {0}
IsPlain (c ∷ s) = (code c ≢ backslash) × (code c ≢ colon) × IsPlain s

-- What `nmcli --terse` does with a colon in a value.
unfoldable pub escape_colons : String → String
escape_colons [] = []
escape_colons (c ∷ s) = if code c == colon then "\\" ∷ c ∷ escape_colons s else c ∷ escape_colons s

scan_back-plain :
    (t before after : String)
    → IsPlain t
    → scan_back false (reverse_onto t before) after ≡ scan_back false before (concat t after)
unfolding scan_back reverse_onto
scan_back-plain [] before after h = rw nil-append
scan_back-plain (c ∷ t) before after h =
    scan_back false (reverse_onto t (c ∷ before)) after
    ≡⟨ scan_back-plain t (c ∷ before) after h.2 ⟩ scan_back false (c ∷ before) (concat t after)
    ≡⟨ ground arith ⟩ scan_back false before (c ∷ concat t after)
    ≡⟨ ap (scan_back false before) (sym (cons-append c t after)) ⟩
      scan_back false before (concat (c ∷ t) after) ∎

reverse_onto-concat :
    (s t acc : String) → reverse_onto (concat s t) acc ≡ reverse_onto t (reverse_onto s acc)
unfolding reverse_onto
reverse_onto-concat [] t acc = rw nil-append
reverse_onto-concat (c ∷ s) t acc = rw cons-append (reverse_onto-concat s t (c ∷ acc))

reverse_onto-reverse_onto :
    (s acc : String) → reverse_onto (reverse_onto s acc) [] ≡ reverse_onto acc s
unfolding reverse_onto
reverse_onto-reverse_onto [] acc = refl
reverse_onto-reverse_onto (c ∷ s) acc = reverse_onto-reverse_onto s (c ∷ acc)

unescape_colons-cons :
    (c : Char) (t : String) → code c ≢ backslash → unescape_colons (c ∷ t) ≡ c ∷ unescape_colons t
unfolding unescape_colons
unescape_colons-cons c [] h = refl
unescape_colons-cons c (d ∷ t) h = ground arith

unescape_colons-colon :
    (c : Char) (t : String)
    → code c ≡ colon
    → unescape_colons ("\\" ∷ c ∷ t) ≡ c ∷ unescape_colons t
unfolding unescape_colons
unescape_colons-colon c t h = let p : c ≡ ":" = Char-path c ":" h in rw p

unescape_colons-escape_colons : (s : String) → NoBackslash s → unescape_colons (escape_colons s) ≡ s
unfolding escape_colons
unescape_colons-escape_colons [] h = unfold unescape_colons in refl
unescape_colons-escape_colons (c ∷ s) h =
    let ih = unescape_colons-escape_colons s h.1 in
    elim (Bool-cases (code c == colon)) [
      | inl e ↦
          rw (e, unescape_colons-colon c (escape_colons s) (ground arith)) (ap (λ t. c ∷ t) ih)
      | inr e ↦ rw (e, unescape_colons-cons c (escape_colons s) h.0) (ap (λ t. c ∷ t) ih)
    ]

unescape_colons-plain : (s : String) → IsPlain s → unescape_colons s ≡ s
unescape_colons-plain [] h = unfold unescape_colons in refl
unescape_colons-plain (c ∷ s) h =
    unescape_colons-cons c s h.0 ∙ ap (λ t. c ∷ t) (unescape_colons-plain s h.2)

is_empty-reverse_onto :
    (s acc : String) → is_empty acc ≡ false → is_empty (reverse_onto s acc) ≡ false
unfolding reverse_onto
is_empty-reverse_onto [] acc h = h
is_empty-reverse_onto (c ∷ s) acc h = is_empty-reverse_onto s (c ∷ acc) refl

is_empty-reverse_escape :
    (s : String) → is_empty s ≡ false → is_empty (reverse_onto (escape_colons s) []) ≡ false
unfolding escape_colons
is_empty-reverse_escape [] h = cc
is_empty-reverse_escape (c ∷ s) h = elim (Bool-cases (code c == colon)) [
  | inl e ↦ rw e (unfold reverse_onto in is_empty-reverse_onto (escape_colons s) _ refl)
  | inr e ↦ rw e (unfold reverse_onto in is_empty-reverse_onto (escape_colons s) _ refl)
]

-- The separator is the colon before the type.
scan_back-escape :
    (name kind : String)
    → IsPlain kind
    → scan_back false (reverse_onto (concat (escape_colons name) (":" ∷ kind)) []) []
      ≡ some (reverse_onto (escape_colons name) [], kind)
unfolding scan_back reverse_onto
scan_back-escape name kind pl =
    let before = reverse_onto (escape_colons name) [] in
    scan_back false (reverse_onto (concat (escape_colons name) (":" ∷ kind)) []) []
    ≡⟨ ap (λ t. scan_back false t []) (reverse_onto-concat (escape_colons name) (":" ∷ kind) []) ⟩
      scan_back false (reverse_onto (":" ∷ kind) before) []
    ≡⟨ refl ⟩ scan_back false (reverse_onto kind (":" ∷ before)) []
    ≡⟨ scan_back-plain kind (":" ∷ before) [] pl ⟩ scan_back false (":" ∷ before) (concat kind [])
    ≡⟨ refl ⟩ some (before, concat kind [])
    ≡⟨ ap (λ t. some (before, t)) (append-nil kind) ⟩ some (before, kind) ∎

-- A connection is read back from its line of nmcli's output: whatever colons its name has, the
-- name and the type come out as they went in. The name has no backslash, the type neither that
-- nor a colon, and both are not empty and have no space at their ends.
pub parse_connection-escape :
    (name kind : String)
    → NoBackslash name
    → IsPlain kind
    → trim_space name ≡ name
    → trim_space kind ≡ kind
    → is_empty name ≡ false
    → is_empty kind ≡ false
    → parse_connection (concat (escape_colons name) (":" ∷ kind)) ≡ some (name, kind)
unfolding parse_connection reverse_onto
parse_connection-escape name kind nb pl tn tk en ek =
    let e = scan_back-escape name kind pl in
    let n = is_empty-reverse_escape name en in
    let r = reverse_onto-reverse_onto (escape_colons name) [] in
    rw (e, parse_connection)
      (rw (n, ek, r)
        (rw (unescape_colons-escape_colons name nb, unescape_colons-plain kind pl)
          (rw (tn, tk) (rw (en, ek)))))
