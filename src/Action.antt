-- ===== src/Action.antt =====
-- Methods of a shared object that may fail: a state passed on, beside a result. What was written
-- before an error stays written.
pub mod Keeps
pub mod Ends
pub mod Triple
pub mod Outcome
use sleigh.Prelude.{Bool, true, false}
use sleigh.Errors.{Error, Result, ok, err}

abbrev pub Action : Type 0 → Type 0 → Type 0
Action S A = S → Result A × S

module _ {S A : Type 0} where
  abbrev pub pure : A → Action S A
  pure a s = (ok a, s)

  abbrev pub raise : Error → Action S A
  raise e s = (err e, s)

  -- A read of the state.
  abbrev pub gets : (S → A) → Action S A
  gets f s = (ok (f s), s)

  abbrev pub lift : Result A → Action S A
  lift r s = (r, s)

  -- `if err := m; err != nil`: the error as a value.
  abbrev pub attempt : Action S A → Action S (Result A)
  attempt m s = let (r, s') = m s in (ok r, s')

abbrev pub modify : {S : Type 0} → (S → S) → Action S (Unit {0})
modify f s = (ok tt, f s)

module _ {S A B : Type 0} where
  abbrev pub continue : Result A → (A → Action S B) → Action S B
  continue (ok a) f s = f a s
  continue (err e) f s = (err e, s)

  infixl 10 ◌>>=◌ ◌>>◌
  abbrev pub ◌>>=◌ : Action S A → (A → Action S B) → Action S B
  ◌>>=◌ m f s = let (r, s') = m s in continue r f s'

  abbrev pub ◌>>◌ : Action S A → Action S B → Action S B
  m >> n = m >>= λ _. n

-- `_ = m`: the result is dropped, the effect stays.
abbrev pub ignore : {S A : Type 0} → Action S A → Action S (Unit {0})
ignore m s = let (r, s') = m s in (ok tt, s')

-- `if !b { return e }`
abbrev pub guard : {S : Type 0} → Bool → Error → Action S (Unit {0})
guard true e s = (ok tt, s)
guard false e s = (err e, s)
