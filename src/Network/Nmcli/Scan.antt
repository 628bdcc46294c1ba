-- ===== src/Network/Nmcli/Scan.antt =====
-- The list of networks that `WiFiManager.Scan` returns: sorted, with no SSID twice, and with the
-- SSIDs of the output's lines, no others.
use rook_servicechannel_agen.Common.{
  String, Bool, true, false, ◌||◌, List, [], ◌∷◌, ◌++◌, any, ◌≡◌, ◌↔◌, arith, str_eq, eq_iff, inl,
  inr, ◌⊎◌, Bool-cases, All,
}
use rook_servicechannel_agen.Text.{is_empty, trim_space, split_lines, unescape_colons, less}
use rook_servicechannel_agen.Text.Laws.{less_trans, less_tri}
use rook_servicechannel_agen.Network.Nmcli.{collect, insert_sorted, sort, parse_scan}

abbrev pub Elem : String → List String → Type 0
Elem s [] = ⊥
Elem s (t ∷ r) = (s ≡ t) ⊎ Elem s r

-- The SSID of a line of the output.
abbrev pub ssid_of : String → String
ssid_of line = trim_space (unescape_colons line)

abbrev pub Listed : String → List String → Type 0
Listed s [] = ⊥
Listed s (line ∷ lines) = (s ≡ ssid_of line) ⊎ Listed s lines

-- Every text is less than all that follow it.
abbrev pub IsAscending : List String → Type 0
IsAscending [] = Unit {0}
IsAscending (s ∷ r) = All (λ t. less s t ≡ true) r × IsAscending r

any-Elem : (s : String) (xs : List String) → (any (str_eq s) xs ≡ true) ↔ Elem s xs
any-Elem s [] = (λ h. cc, λ h. absurd h)
any-Elem s (t ∷ r) = ground (arith, eq_iff s t, any-Elem s r)

Elem-append : (s : String) (xs ys : List String) → Elem s (xs ++ ys) ↔ (Elem s xs ⊎ Elem s ys)
Elem-append s [] ys = (λ h. inr h, λ h. elim h [ inl a ↦ absurd a | inr b ↦ b ])
Elem-append s (x ∷ xs) ys = ground (arith, Elem-append s xs ys)

-- The texts are distinct.
abbrev IsDistinct : List String → Type 0
IsDistinct [] = Unit {0}
IsDistinct (s ∷ r) = (¬ (Elem s r)) × IsDistinct r

IsDistinct-concat :
    (xs : List String) (s : String) → IsDistinct xs → ¬ (Elem s xs) → IsDistinct (xs ++ s ∷ [])
IsDistinct-concat [] s h n = (λ a. a, tt)
IsDistinct-concat (x ∷ xs) s h n =
    ground (arith, IsDistinct-concat xs s h.1, Elem-append x xs (s ∷ []))

skip_test : String → List String → Bool
skip_test ssid seen = is_empty ssid || any (str_eq ssid) seen

-- One round of the loop, by whether it skips the line.
collect_skip :
    (line : String) (lines seen networks : List String)
    → skip_test (ssid_of line) seen ≡ true
    → collect (line ∷ lines) seen networks ≡ collect lines seen networks
unfolding collect skip_test
collect_skip line lines seen networks h = rw h

collect_take :
    (line : String) (lines seen networks : List String)
    → skip_test (ssid_of line) seen ≡ false
    → collect (line ∷ lines) seen networks
      ≡ collect lines (ssid_of line ∷ seen) (networks ++ ssid_of line ∷ [])
unfolding collect skip_test
collect_take line lines seen networks h = rw h

module _ (seen networks : List String) where
  -- The map of the SSIDs seen holds those that were collected.
  abbrev Covers : Type 0
  Covers = (t : String) → Elem t networks ↔ Elem t seen

Covers-take :
    (s : String) (seen networks : List String)
    → Covers seen networks
    → Covers (s ∷ seen) (networks ++ s ∷ [])
Covers-take s seen networks h t = ground (arith, h t, Elem-append t networks (s ∷ []))

not-Elem_of_take :
    (s : String) (seen networks : List String)
    → Covers seen networks
    → skip_test s seen ≡ false
    → ¬ (Elem s networks)
unfolding skip_test
not-Elem_of_take s seen networks h e = ground (arith, h s, any-Elem s seen)

collect-IsDistinct :
    (lines seen networks : List String)
    → Covers seen networks
    → IsDistinct networks
    → IsDistinct (collect lines seen networks)
collect-IsDistinct [] seen networks h d = unfold collect in d
collect-IsDistinct (line ∷ lines) seen networks h d =
    let s = ssid_of line in
    elim (Bool-cases (skip_test s seen)) [
      | inl e ↦
          rw (collect_skip line lines seen networks e) (collect-IsDistinct lines seen networks h d)
      | inr e ↦ rw (collect_take line lines seen networks e) (
          collect-IsDistinct lines (s ∷ seen) (networks ++ s ∷ []) (Covers-take s seen networks h)
            (IsDistinct-concat networks s d (not-Elem_of_take s seen networks h e)))
    ]

abbrev Found : String → List String → List String → Type 0
Found t lines networks = Elem t networks ⊎ (Listed t lines × (is_empty t ≡ false))

collected_before :
    (t s : String) (seen networks : List String)
    → Covers seen networks
    → t ≡ s
    → skip_test s seen ≡ true
    → is_empty t ≡ false
    → Elem t networks
unfolding skip_test
collected_before t s seen networks h e k n = rw e (ground (arith, h s, any-Elem s seen, rw e at n))

Found-skip :
    (t line : String) (lines seen networks : List String)
    → Covers seen networks
    → skip_test (ssid_of line) seen ≡ true
    → Found t (line ∷ lines) networks ↔ Found t lines networks
unfolding skip_test
Found-skip t line lines seen networks h e =
    ground (arith, collected_before t (ssid_of line) seen networks h)

taken_ne :
    (t s : String) (seen : List String) → t ≡ s → skip_test s seen ≡ false → is_empty t ≡ false
unfolding skip_test
taken_ne t s seen e k = rw e (ground arith)

Found-take :
    (t line : String) (lines seen networks : List String)
    → skip_test (ssid_of line) seen ≡ false
    → Found t (line ∷ lines) networks ↔ Found t lines (networks ++ ssid_of line ∷ [])
unfolding skip_test
Found-take t line lines seen networks e =
    ground (arith, Elem-append t networks (ssid_of line ∷ []), taken_ne t (ssid_of line) seen)

collect-Elem :
    (t : String) (lines seen networks : List String)
    → Covers seen networks
    → Elem t (collect lines seen networks) ↔ Found t lines networks
collect-Elem t [] seen networks h =
    unfold collect in (λ e. inl e, λ f. elim f [ inl e ↦ e | inr l ↦ absurd l.0 ])
collect-Elem t (line ∷ lines) seen networks h =
    let s = ssid_of line in
    elim (Bool-cases (skip_test s seen)) [
      | inl e ↦ rw (collect_skip line lines seen networks e) (
          ground (
            arith,
            Found-skip t line lines seen networks h e,
            collect-Elem t lines seen networks h,
          ))
      | inr e ↦ rw (collect_take line lines seen networks e) (
          ground (
            arith,
            Found-take t line lines seen networks e,
            collect-Elem t lines (s ∷ seen) (networks ++ s ∷ []) (Covers-take s seen networks h),
          ))
    ]

insert_sorted-Elem : (t s : String) (r : List String) → Elem t (insert_sorted s r) ↔ Elem t (s ∷ r)
unfolding insert_sorted
insert_sorted-Elem t s [] = (λ h. h, λ h. h)
insert_sorted-Elem t s (u ∷ r) = ground (arith, insert_sorted-Elem t s r)

sort-Elem : (t : String) (xs : List String) → Elem t (sort xs) ↔ Elem t xs
unfolding sort
sort-Elem t [] = (λ h. h, λ h. h)
sort-Elem t (s ∷ r) = ground (arith, insert_sorted-Elem t s (sort r), sort-Elem t r)

All-less_insert :
    (u s : String) (r : List String)
    → less u s ≡ true
    → All (λ t. less u t ≡ true) r
    → All (λ t. less u t ≡ true) (insert_sorted s r)
unfolding insert_sorted
All-less_insert u s [] p h = (p, tt)
All-less_insert u s (t ∷ r) p h = elim (Bool-cases (less t s)) [
  | inl e ↦ rw e (h.0, All-less_insert u s r p h.1)
  | inr e ↦ rw e (p, h)
]

All-less_trans :
    (s t : String) (r : List String)
    → less s t ≡ true
    → All (λ u. less t u ≡ true) r
    → All (λ u. less s u ≡ true) r
All-less_trans s t [] p h = tt
All-less_trans s t (u ∷ r) p h = (less_trans s t u p h.0, All-less_trans s t r p h.1)

less_of_ne : (s t : String) → ¬ (s ≡ t) → less t s ≡ false → less s t ≡ true
less_of_ne s t n h = elim (Bool-cases (less s t)) [
  | inl e ↦ e
  | inr e ↦ absurd (n (less_tri s t e h))
]

insert_sorted-IsAscending :
    (s : String) (r : List String) → ¬ (Elem s r) → IsAscending r → IsAscending (insert_sorted s r)
unfolding insert_sorted
insert_sorted-IsAscending s [] n h = (tt, tt)
insert_sorted-IsAscending s (t ∷ r) n h = elim (Bool-cases (less t s)) [
  | inl e ↦ rw e (All-less_insert t s r e h.0, insert_sorted-IsAscending s r (λ m. n (inr m)) h.1)
  | inr e ↦ let p = less_of_ne s t (λ q. n (inl q)) e in rw e ((p, All-less_trans s t r p h.0), h)
]

sort-IsAscending : (xs : List String) → IsDistinct xs → IsAscending (sort xs)
unfolding sort
sort-IsAscending [] d = tt
sort-IsAscending (s ∷ r) d =
    insert_sorted-IsAscending s (sort r) (λ m. d.0 ((sort-Elem s r).0 m)) (sort-IsAscending r d.1)

-- The scan returns its SSIDs in strictly ascending order, so no SSID twice, and an SSID is among them
-- exactly if it is that of a line of the output and is not empty.
pub parse_scan_lem :
    (output : String)
    → IsAscending (parse_scan output)
      × ((t : String)
          → Elem t (parse_scan output) ↔ (Listed t (split_lines output) × (is_empty t ≡ false)))
unfolding parse_scan
parse_scan_lem output = (
  sort-IsAscending _ (collect-IsDistinct (split_lines output) [] [] (λ t. (λ h. h, λ h. h)) tt),
  λ t. ground (
    arith,
    sort-Elem t (collect (split_lines output) [] []),
    collect-Elem t (split_lines output) [] [] (λ u. (λ h. h, λ h. h)),
  ),
)
