-- ===== src/Errors/Exec.antt =====
-- Methods: they change a state, and what they changed stays changed when they throw.
use barbarossa.Errors.{Exception}
use barbarossa.Errors.Outcome.{Outcome, ok, throws, undefined, terminates}

abbrev pub Exec {ℓ} : Type ℓ → Type ℓ → Type ℓ
Exec S A = S → Outcome A × S

-- A method with no result.
abbrev pub Action {ℓ} : Type ℓ → Type ℓ
Action S = S → Outcome (Unit {0}) × S

module _ {ℓ κ} {S : Type κ} {A : Type ℓ} where
  abbrev pub pure : A → S → Outcome A × S
  pure a s = (ok a, s)

  abbrev pub throw : Exception → S → Outcome A × S
  throw e s = (throws e, s)

  abbrev pub lift : Outcome A → S → Outcome A × S
  lift r s = (r, s)

module _ {ℓ ℓ' κ} {S : Type κ} {A : Type ℓ} {B : Type ℓ'} where
  abbrev pub continue : Outcome A → (A → S → Outcome B × S) → S → Outcome B × S
  continue (ok a) f s = f a s
  continue (throws e) f s = (throws e, s)
  continue undefined f s = (undefined, s)
  continue terminates f s = (terminates, s)

  infixl 5 ◌>>=◌
  abbrev pub ◌>>=◌ : (S → Outcome A × S) → (A → S → Outcome B × S) → S → Outcome B × S
  ◌>>=◌ m f s = let (r, s') = m s in continue r f s'

  infixl 5 ◌>>◌
  abbrev pub ◌>>◌ : (S → Outcome A × S) → (S → Outcome B × S) → S → Outcome B × S
  m >> k = m >>= λ _. k
