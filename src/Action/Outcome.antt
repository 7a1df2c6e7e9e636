-- ===== src/Action/Outcome.antt =====
-- What holds of the answer and the state of an action, whether it returned or failed: the steps before
-- the last keep `P`, and an error leaves what `P` says.
use sleigh.Errors.{Error, Result, ok, err}
use sleigh.Action.{Action, continue, ◌>>=◌}
use sleigh.Action.Keeps.{Keeps}

module _ {S A : Type 0} where
  pub record Outcome (P : S → Type 0) (m : Action S A) (Q : Result A → S → Type 0) : Type 0 where
    pub at : (s : S) → P s → Q (m s).0 (m s).1

module _ {S A B : Type 0} {P : S → Type 0} {Q : Result B → S → Type 0} where
  Outcome-continue :
      (r : Result A) (f : A → Action S B) (s : S)
      → P s
      → ((e : Error) (s : S) → P s → Q (err e) s)
      → ((a : A) → Outcome P (f a) Q)
      → Q (continue r f s).0 (continue r f s).1
  Outcome-continue (ok a) f s h failed k = (k a).at s h
  Outcome-continue (err e) f s h failed k = failed e s h

  pub Outcome-bind :
      (m : Action S A) (f : A → Action S B)
      → ((e : Error) (s : S) → P s → Q (err e) s)
      → Keeps P m
      → ((a : A) → Outcome P (f a) Q)
      → Outcome P (m >>= f) Q
  Outcome-bind m f failed km kf = record {
    at = λ s h. Outcome-continue (m s).0 f (m s).1 (km.at s h) failed kf;
  }
