-- ===== src/Action/Keeps.antt =====
-- Invariants of actions: one rule for each way to build one. The invariant holds after the action
-- whether it returned or failed.
use sleigh.Prelude.{Bool, true, false, if◌then◌else◌}
use sleigh.Errors.{Error, Result, ok, err}
use sleigh.Action.{Action, pure, raise, gets, lift, attempt, continue, ◌>>=◌, ignore, guard}

pub record Keeps {S A : Type 0} (P : S → Type 0) (m : Action S A) : Type 0 where
  pub at : (s : S) → P s → P (m s).1

module _ {S A : Type 0} {P : S → Type 0} where
  pub Keeps-pure : (a : A) → Keeps P (pure a)
  Keeps-pure a = record { at = λ s h. h }

  pub Keeps-raise : (e : Error) → Keeps P (raise {A = A} e)
  Keeps-raise e = record { at = λ s h. h }

  pub Keeps-gets : (f : S → A) → Keeps P (gets f)
  Keeps-gets f = record { at = λ s h. h }

  pub Keeps-lift : (r : Result A) → Keeps P (lift r)
  Keeps-lift r = record { at = λ s h. h }

  pub Keeps-attempt : (m : Action S A) → Keeps P m → Keeps P (attempt m)
  Keeps-attempt m k = record { at = λ s h. k.at s h }

  pub Keeps-ignore : (m : Action S A) → Keeps P m → Keeps P (ignore m)
  Keeps-ignore m k = record { at = λ s h. k.at s h }

  pub Keeps-if :
      (b : Bool) (m n : Action S A) → Keeps P m → Keeps P n → Keeps P (if b then m else n)
  Keeps-if true m n km kn = km
  Keeps-if false m n km kn = kn

pub Keeps-guard : {S : Type 0} {P : S → Type 0} (b : Bool) (e : Error) → Keeps P (guard b e)
Keeps-guard true e = record { at = λ s h. h }
Keeps-guard false e = record { at = λ s h. h }

module _ {S A B : Type 0} {P : S → Type 0} where
  Keeps-continue :
      (r : Result A) (f : A → Action S B) → ((a : A) → Keeps P (f a)) → Keeps P (continue r f)
  Keeps-continue (ok a) f k = k a
  Keeps-continue (err e) f k = record { at = λ s h. h }

  pub Keeps-bind :
      (m : Action S A) (f : A → Action S B)
      → Keeps P m
      → ((a : A) → Keeps P (f a))
      → Keeps P (m >>= f)
  Keeps-bind m f km kf = record { at = λ s h. (Keeps-continue (m s).0 f kf).at (m s).1 (km.at s h) }

pub ruleset keeps_rules = (
  Keeps-pure, Keeps-raise, Keeps-gets, Keeps-lift, Keeps-attempt, Keeps-ignore, Keeps-if,
  Keeps-guard, Keeps-bind,
)
