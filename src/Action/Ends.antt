-- ===== src/Action/Ends.antt =====
-- What holds after an action from any state, for actions made of steps that cannot fail.
use sleigh.Prelude.{Bool, true, false, if◌then◌else◌}
use sleigh.Errors.{Result, ok, err}
use sleigh.Action.{Action, pure, attempt, modify, continue, ◌>>=◌, ignore}
use sleigh.Action.Keeps.{Keeps}

abbrev pub IsOk : {A : Type 0} → Result A → Type 0
IsOk (ok a) = Unit
IsOk (err e) = ⊥

pub record Succeeds {S A : Type 0} (m : Action S A) : Type 0 where
  pub from : (s : S) → IsOk (m s).0

pub record Ends {S A : Type 0} (P : S → Type 0) (m : Action S A) : Type 0 where
  pub at : (s : S) → P (m s).1

module _ {S A : Type 0} where
  pub Succeeds-pure : (a : A) → Succeeds (pure {S = S} a)
  Succeeds-pure a = record { from = λ s. tt }

  pub Succeeds-attempt : (m : Action S A) → Succeeds (attempt m)
  Succeeds-attempt m = record { from = λ s. tt }

  pub Succeeds-ignore : (m : Action S A) → Succeeds (ignore m)
  Succeeds-ignore m = record { from = λ s. tt }

  pub Succeeds-if :
      (b : Bool) (m n : Action S A) → Succeeds m → Succeeds n → Succeeds (if b then m else n)
  Succeeds-if true m n km kn = km
  Succeeds-if false m n km kn = kn

pub Succeeds-modify : {S : Type 0} (f : S → S) → Succeeds (modify f)
Succeeds-modify f = record { from = λ s. tt }

module _ {S A B : Type 0} where
  continue-Succeeds :
      (r : Result A) (f : A → Action S B) (s : S)
      → IsOk r
      → ((a : A) → Succeeds (f a))
      → IsOk (continue r f s).0
  continue-Succeeds (ok a) f s h k = (k a).from s
  continue-Succeeds (err e) f s h k = elim h [ ]

  pub Succeeds-bind :
      (m : Action S A) (f : A → Action S B)
      → Succeeds m
      → ((a : A) → Succeeds (f a))
      → Succeeds (m >>= f)
  Succeeds-bind m f km kf = record {
    from = λ s. continue-Succeeds (m s).0 f (m s).1 (km.from s) kf;
  }

  module _ {P : S → Type 0} where
    continue-Ends :
        (r : Result A) (f : A → Action S B) (s : S)
        → IsOk r
        → ((a : A) → Ends P (f a))
        → P (continue r f s).1
    continue-Ends (ok a) f s h k = (k a).at s
    continue-Ends (err e) f s h k = elim h [ ]

    pub Ends-bind :
        (m : Action S A) (f : A → Action S B)
        → Succeeds m
        → ((a : A) → Ends P (f a))
        → Ends P (m >>= f)
    Ends-bind m f km kf = record { at = λ s. continue-Ends (m s).0 f (m s).1 (km.from s) kf }

    continue-Ends_keep :
        (r : Result A) (f : A → Action S B) (s : S)
        → P s
        → ((a : A) → Keeps P (f a))
        → P (continue r f s).1
    continue-Ends_keep (ok a) f s h k = (k a).at s h
    continue-Ends_keep (err e) f s h k = h

    -- What one step brings about and the rest keeps.
    pub Ends-keep :
        (m : Action S A) (f : A → Action S B)
        → Ends P m
        → ((a : A) → Keeps P (f a))
        → Ends P (m >>= f)
    Ends-keep m f km kf = record { at = λ s. continue-Ends_keep (m s).0 f (m s).1 (km.at s) kf }

pub ruleset succeeds_rules =
    (Succeeds-pure, Succeeds-attempt, Succeeds-ignore, Succeeds-if, Succeeds-modify, Succeeds-bind)
