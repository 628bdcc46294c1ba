-- ===== src/Logging/Laws.antt =====
-- What is logged of a JSON body does not depend on its secrets.
use rook_servicechannel_agen.Common.{
  String, true, false, Option, str_eq, ◌≡◌, refl, ap, ap₂, inl, inr, arith, Bool-cases,
  if◌then◌else◌,
}
use rook_servicechannel_agen.Text.{less, is_empty}
use rook_servicechannel_agen.Action.{ok}
use rook_servicechannel_agen.Json.{Json, str, arr, obj, Items, nil, cons, Fields, end, field}
use rook_servicechannel_agen.Host.{Host}
use rook_servicechannel_agen.Logging.{
  should_redact_key, redact_secrets, redact_items, redact_fields, add_entry, as_value, as_items,
  as_map, numbers_fit, json_bytes,
}

-- Two values that are the same but for the values under secret keys.
mutual
  pub data Alike : Json → Json → Type 0 where
    same : (j : Json) → Alike j j
    both_arr : {xs ys : Items} → AlikeItems xs ys → Alike (arr xs) (arr ys)
    both_obj : {fs gs : Fields} → AlikeFields fs gs → Alike (obj fs) (obj gs)

  pub data AlikeItems : Items → Items → Type 0 where
    both_nil : AlikeItems nil nil
    both_cons :
        {x y : Json} {xs ys : Items}
        → Alike x y
        → AlikeItems xs ys
        → AlikeItems (cons x xs) (cons y ys)

  pub data AlikeFields : Fields → Fields → Type 0 where
    both_end : AlikeFields end end
    both_field :
        {key : String} {v w : Json} {fs gs : Fields}
        → AlikeEntry key v w
        → AlikeFields fs gs
        → AlikeFields (field key v fs) (field key w gs)

  -- The values under a key.
  pub data AlikeEntry : String → Json → Json → Type 0 where
    hidden : {key : String} {v w : Json} → should_redact_key key ≡ true → AlikeEntry key v w
    shown : {key : String} {v w : Json} → Alike v w → AlikeEntry key v w

mutual
  unfolding redact_secrets redact_items redact_fields

  redact_secrets-Alike : {j k : Json} → Alike j k → redact_secrets j ≡ redact_secrets k
  redact_secrets-Alike (same j) = refl
  redact_secrets-Alike (both_arr h) = ap arr (redact_items-Alike h)
  redact_secrets-Alike (both_obj h) = ap obj (redact_fields-Alike h)

  redact_items-Alike : {xs ys : Items} → AlikeItems xs ys → redact_items xs ≡ redact_items ys
  redact_items-Alike both_nil = refl
  redact_items-Alike (both_cons h r) = ap₂ cons (redact_secrets-Alike h) (redact_items-Alike r)

  redact_fields-Alike : {fs gs : Fields} → AlikeFields fs gs → redact_fields fs ≡ redact_fields gs
  redact_fields-Alike both_end = refl
  redact_fields-Alike (both_field {key} h r) =
      ap₂ (λ v fs. field key v fs) (redact_entry-Alike h) (redact_fields-Alike r)

  redact_entry-Alike :
      {key : String} {v w : Json}
      → AlikeEntry key v w
      → (if should_redact_key key then str "<redacted>" else redact_secrets v)
        ≡ (if should_redact_key key then str "<redacted>" else redact_secrets w)
  redact_entry-Alike (hidden e) = rw e refl
  redact_entry-Alike (shown {key} h) =
      ap (λ x. if should_redact_key key then str "<redacted>" else x) (redact_secrets-Alike h)

add_entry-Alike :
    (key : String) {v w : Json} {fs gs : Fields}
    → AlikeEntry key v w
    → AlikeFields fs gs
    → AlikeFields (add_entry key v fs) (add_entry key w gs)
unfolding add_entry
add_entry-Alike key h both_end = both_field h both_end
add_entry-Alike key h (both_field {key = k} e r) = elim (Bool-cases (str_eq key k)) [
  | inl there ↦ rw there (both_field e r)
  | inr other ↦ elim (Bool-cases (less key k)) [
    | inl before ↦ rw (other, before) (both_field h (both_field e r))
    | inr after ↦ rw (other, after) (both_field e (add_entry-Alike key h r))
  ]
]

module _ (number : String → Option String) where
  mutual
    unfolding as_value as_items as_map

    as_value-Alike : {j k : Json} → Alike j k → Alike (as_value number j) (as_value number k)
    as_value-Alike (same j) = same _
    as_value-Alike (both_arr h) = both_arr (as_items-Alike h)
    as_value-Alike (both_obj h) = both_obj (as_map-Alike h)

    as_items-Alike :
        {xs ys : Items} → AlikeItems xs ys → AlikeItems (as_items number xs) (as_items number ys)
    as_items-Alike both_nil = both_nil
    as_items-Alike (both_cons h r) = both_cons (as_value-Alike h) (as_items-Alike r)

    as_map-Alike :
        {fs gs : Fields} → AlikeFields fs gs → AlikeFields (as_map number fs) (as_map number gs)
    as_map-Alike both_end = both_end
    as_map-Alike (both_field {key} h r) = add_entry-Alike key (as_entry-Alike h) (as_map-Alike r)

    as_entry-Alike :
        {key : String} {v w : Json}
        → AlikeEntry key v w
        → AlikeEntry key (as_value number v) (as_value number w)
    as_entry-Alike (hidden e) = hidden e
    as_entry-Alike (shown h) = shown (as_value-Alike h)

  module _ {W : Type 0} (host : Host W) where
    json_bytes-parsed :
        (body : String) {j : Json}
        → is_empty body ≡ false
        → host.parse_json body ≡ ok j
        → numbers_fit number j ≡ true
        → json_bytes number host body ≡ host.print_json (redact_secrets (as_value number j))
    unfolding json_bytes
    json_bytes-parsed body e p f = ground arith

    -- Two bodies that are not empty, that parse to values which differ under secret keys only, and
    -- whose numbers are in the range of a float64, are logged as the same text.
    pub json_bytes-Alike :
        (body other : String) {j k : Json}
        → is_empty body ≡ false
        → is_empty other ≡ false
        → host.parse_json body ≡ ok j
        → host.parse_json other ≡ ok k
        → numbers_fit number j ≡ true
        → numbers_fit number k ≡ true
        → Alike j k
        → json_bytes number host body ≡ json_bytes number host other
    json_bytes-Alike body other e e' p p' f f' h = rw (
      json_bytes-parsed body e p f,
      json_bytes-parsed other e' p' f',
      redact_secrets-Alike (as_value-Alike h),
    )
