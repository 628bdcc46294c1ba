-- ===== src/Action/Keeps.antt =====
-- What actions keep of their state, whether they succeed or fail: one rule for each way to build one.
use rook_servicechannel_agen.Common.{Bool, true, false, if◌then◌else◌}
use rook_servicechannel_agen.Errors.{Error}
use rook_servicechannel_agen.Action.{
  Result, ok, err, Action, pure, fail, of_result, try, ◌>>=◌, wrap_error,
}

pub record Keeps {S A : Type 0} (P : S → Type 0) (m : Action S A) : Type 0 where
  pub at : (s : S) → P s → P (m s).1

-- A result that is wrapped, or that is gone on with.
module _ {S A : Type 0} (P : S → Type 0) where
  wrapped : (f : Error → Error) (r : Result A) (s : S) → P s → P (wrap_error f (of_result r) s).1
  wrapped f (ok a) s h = h
  wrapped f (err e) s h = h

  continued :
      {B : Type 0} (r : Result A) (f : A → Action S B) (s : S)
      → ((a : A) → Keeps P (f a))
      → P s
      → P ((of_result r >>= f) s).1
  continued (ok a) f s k h = (k a).at s h
  continued (err e) f s k h = h

module _ {S A : Type 0} {P : S → Type 0} where
  pub Keeps-pure : (a : A) → Keeps P (pure a)
  Keeps-pure a = record { at = λ s h. h }

  pub Keeps-fail : (e : Error) → Keeps P (fail {A = A} e)
  Keeps-fail e = record { at = λ s h. h }

  pub Keeps-of_result : (r : Result A) → Keeps P (of_result r)
  Keeps-of_result r = record { at = λ s h. h }

  pub Keeps-try : (m : Action S A) → Keeps P m → Keeps P (try m)
  Keeps-try m k = record { at = λ s h. k.at s h }

  pub Keeps-if :
      (b : Bool) (m n : Action S A) → Keeps P m → Keeps P n → Keeps P (if b then m else n)
  Keeps-if true m n k l = k
  Keeps-if false m n k l = l

  pub Keeps-wrap_error : (f : Error → Error) (m : Action S A) → Keeps P m → Keeps P (wrap_error f m)
  Keeps-wrap_error f m k = record { at = λ s h. wrapped P f (m s).0 (m s).1 (k.at s h) }

module _ {S A B : Type 0} {P : S → Type 0} where
  pub Keeps-bind :
      (m : Action S A) (f : A → Action S B)
      → Keeps P m
      → ((a : A) → Keeps P (f a))
      → Keeps P (m >>= f)
  Keeps-bind m f k l = record { at = λ s h. continued P (m s).0 f (m s).1 l (k.at s h) }

pub ruleset keeps_rules =
    (Keeps-pure, Keeps-fail, Keeps-of_result, Keeps-try, Keeps-if, Keeps-wrap_error, Keeps-bind)
