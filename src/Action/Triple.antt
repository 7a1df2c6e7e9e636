-- ===== src/Action/Triple.antt =====
-- Partial specifications of actions: what holds of the answer and the state when there is no error.
use sleigh.Prelude.{◌≡◌, subst}
use sleigh.Errors.{Result, ok, err}
use sleigh.Action.{Action, pure, continue, ◌>>=◌}
use sleigh.Action.Keeps.{Keeps}

module _ {S A : Type 0} where
  abbrev pub Post : (A → S → Type 0) → Result A → S → Type 0
  Post Q (ok a) s = Q a s
  Post Q (err e) s = Unit

  pub record Triple (P : S → Type 0) (m : Action S A) (Q : A → S → Type 0) : Type 0 where
    pub at : (s : S) → P s → Post Q (m s).0 (m s).1

  Post-Keeps : (P : S → Type 0) (r : Result A) (s : S) → P s → Post (λ _. P) r s
  Post-Keeps P (ok a) s h = h
  Post-Keeps P (err e) s h = tt

  pub Triple-Keeps : {P : S → Type 0} (m : Action S A) → Keeps P m → Triple P m (λ _. P)
  Triple-Keeps m k = record { at = λ s h. Post-Keeps _ (m s).0 (m s).1 (k.at s h) }

  pub Triple-pure :
      {P : S → Type 0} {Q : A → S → Type 0} (a : A) → ((s : S) → P s → Q a s) → Triple P (pure a) Q
  Triple-pure a k = record { at = k }

  pub Post-ok : (Q : A → S → Type 0) (r : Result A) (s : S) (a : A) → Post Q r s → r ≡ ok a → Q a s
  Post-ok Q r s a h e = subst (λ r. Post Q r s) e h

module _ {S A B : Type 0} where
  Post-continue :
      (Q : A → S → Type 0) (T : B → S → Type 0) (r : Result A) (f : A → Action S B) (s : S)
      → Post Q r s
      → ((a : A) → Triple (Q a) (f a) T)
      → Post T (continue r f s).0 (continue r f s).1
  Post-continue Q T (ok a) f s h k = (k a).at s h
  Post-continue Q T (err e) f s h k = tt

  pub Triple-bind :
      {P : S → Type 0} (Q : A → S → Type 0) {T : B → S → Type 0} (m : Action S A)
      (f : A → Action S B)
      → Triple P m Q
      → ((a : A) → Triple (Q a) (f a) T)
      → Triple P (m >>= f) T
  Triple-bind Q m f km kf = record {
    at = λ s h. Post-continue Q _ (m s).0 f (m s).1 (km.at s h) kf;
  }
