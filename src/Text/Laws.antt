-- ===== src/Text/Laws.antt =====
-- The order of texts, equality tests in lists, and tests of the functions on text.
use Prim.Native.Char.{code}
use Prim.Native.String.{[], ◌∷◌}
use text.Mathlib.TextEquality.{Char-path}
use rook_servicechannel_agen.Common.{
  String, true, false, ◌≡◌, refl, ap₂, [], ◌∷◌, ◌||◌, ◌==◌, arith,
}
use rook_servicechannel_agen.Text.{
  trim_space, split_lines, unescape_colons, contains, fields_func, less,
}

pub less_irrefl : (s : String) → less s s ≡ false
unfolding less
less_irrefl [] = refl
less_irrefl (c ∷ s) = ground (arith, less_irrefl s)

pub less_trans : (s t u : String) → less s t ≡ true → less t u ≡ true → less s u ≡ true
unfolding less
less_trans s t [] p q = q
less_trans [] t (e ∷ u) p q = refl
less_trans (c ∷ s) [] (e ∷ u) p q = cc
less_trans (c ∷ s) (d ∷ t) (e ∷ u) p q = ground (arith, less_trans s t u)

-- Two texts of which neither is less are one.
pub less_tri : (s t : String) → less s t ≡ false → less t s ≡ false → s ≡ t
unfolding less
less_tri [] [] p q = refl
less_tri [] (d ∷ t) p q = cc
less_tri (c ∷ s) [] p q = cc
less_tri (c ∷ s) (d ∷ t) p q =
    let same : code c ≡ code d = ground arith in
    ap₂ (λ x y. x ∷ y) (Char-path c d same) (less_tri s t (ground arith) (ground arith))

trim_test : trim_space " a b  " ≡ "a b"
unfolding trim_space
trim_test = refl

split_test : split_lines "a\nb\n" ≡ "a" ∷ "b" ∷ "" ∷ []
unfolding split_lines
split_test = refl

unescape_test : unescape_colons "a\\:b:c\\" ≡ "a:b:c\\"
unfolding unescape_colons
unescape_test = refl

contains_test : contains "the unknown connection" "known c" ≡ true
unfolding contains
contains_test = refl

fields_test : fields_func (λ c. c == 32 || c == b'/') " ab/c  d" ≡ "ab" ∷ "c" ∷ "d" ∷ []
unfolding fields_func
fields_test = refl
