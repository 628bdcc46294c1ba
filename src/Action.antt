-- ===== src/Action.antt =====
-- Results of fallible calls, and actions: calls that read and change a state. What a call leaves
-- in the state stays there when it returns an error.
pub mod Keeps
use rook_servicechannel_agen.Common.{
  Bool, Option, none, some, if◌then◌else◌, ◌≡◌, refl, ap, ◌⊎◌, inl, inr, arith,
}
use rook_servicechannel_agen.Errors.{Error}

pub data Result (A : Type 0) : Type 0 where
  ok : A → Result A
  err : Error → Result A

pub Result-cases :
    {A : Type 0} (r : Result A) → ((a : A) × (r ≡ ok a)) ⊎ ((e : Error) × (r ≡ err e))
Result-cases (ok a) = inl (a, refl)
Result-cases (err e) = inr (e, refl)

abbrev pub Action : Type 0 → Type 0 → Type 0
Action S A = S → Result A × S

module _ {S A : Type 0} where
  abbrev pub pure : A → Action S A
  pure a s = (ok a, s)

  abbrev pub fail : Error → Action S A
  fail e s = (err e, s)

  abbrev pub of_result : Result A → Action S A
  of_result r s = (r, s)

  -- The call's error as a value, for code that looks at it.
  abbrev pub try : Action S A → Action S (Result A)
  try m s = let (r, s') = m s in (ok r, s')

infixl 5 ◌>>=◌ ◌>>◌
abbrev pub ◌>>=◌ : {S A B : Type 0} → Action S A → (A → Action S B) → Action S B
◌>>=◌ m f s = let (r, s') = m s in elim r [ ok a ↦ f a s' | err e ↦ (err e, s') ]

abbrev pub ◌>>◌ : {S A B : Type 0} → Action S A → Action S B → Action S B
m >> k = m >>= λ _. k

-- `if err != nil { return err }` after a check that returns an error or nil.
abbrev pub check : {S : Type 0} → Option Error → Action S (Unit {0})
check none s = (ok tt, s)
check (some e) s = (err e, s)

-- `if bad { return err }`
abbrev pub fail_if : {S : Type 0} → Bool → Error → Action S (Unit {0})
fail_if b e s = (if b then err e else ok tt, s)

-- The call's error passed on with a text before it.
abbrev pub wrap_error : {S A : Type 0} → (Error → Error) → Action S A → Action S A
wrap_error f m s = let (r, s') = m s in elim r [ ok a ↦ (ok a, s') | err e ↦ (err (f e), s') ]

-- One step of a chain, by the result of its first call.
pub >>=_ok :
    {S A B : Type 0} (m : Action S A) (f : A → Action S B) (s : S) {a : A} {s' : S}
    → m s ≡ (ok a, s')
    → (m >>= f) s ≡ f a s'
>>=_ok m f s e = ap (λ p. elim p.0 [ ok a ↦ f a p.1 | err x ↦ (err x, p.1) ]) e

pub >>=_err :
    {S A B : Type 0} (m : Action S A) (f : A → Action S B) (s : S) {x : Error} {s' : S}
    → m s ≡ (err x, s')
    → (m >>= f) s ≡ (err x, s')
>>=_err m f s e = ap (λ p. elim p.0 [ ok a ↦ f a p.1 | err x ↦ (err x, p.1) ]) e

-- A chain that succeeds has a first call that succeeds.
bind_inv :
    {S A B : Type 0} (m : Action S A) (f : A → Action S B) (s : S) (p : Result A × S) {b : B}
    {t : S}
    → m s ≡ p
    → elim p.0 [ ok a ↦ f a p.1 | err x ↦ (err x, p.1) ] ≡ (ok b, t)
    → (a : A) × (u : S) × (m s ≡ (ok a, u)) × (f a u ≡ (ok b, t))
bind_inv m f s (ok a, u) c e = (a, u, c, e)
bind_inv m f s (err x, u) c e = ground arith

pub >>=-eq-ok :
    {S A B : Type 0} (m : Action S A) (f : A → Action S B) (s : S) {b : B} {t : S}
    → (m >>= f) s ≡ (ok b, t)
    → (a : A) × (u : S) × (m s ≡ (ok a, u)) × (f a u ≡ (ok b, t))
>>=-eq-ok m f s e = bind_inv m f s (m s) refl e

-- A wrapped call succeeds as the call does.
pub wrap_error-ok :
    {S A : Type 0} (f : Error → Error) (m : Action S A) (s : S) (p : Result A × S) {a : A} {t : S}
    → m s ≡ p
    → wrap_error f m s ≡ (ok a, t)
    → m s ≡ (ok a, t)
wrap_error-ok f m s (ok b, u) c e = ground arith
wrap_error-ok f m s (err x, u) c e = ground arith
