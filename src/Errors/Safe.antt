-- ===== src/Errors/Safe.antt =====
-- Calls that do not end the process: the rules for the ways in which methods are put together.
use barbarossa.Common.{◌≡◌, ◌≢◌, refl, Bool, true, false, if◌then◌else◌}
use barbarossa.Errors.Outcome.{Outcome, ok, throws, undefined, terminates}
use barbarossa.Errors.Exec.{lift, continue, ◌>>=◌, ◌>>◌}

abbrev pub Survives {ℓ} : {A : Type ℓ} → Outcome A → Type ℓ
Survives r = r ≢ terminates

module _ {ℓ ℓ'} {S : Type 0} {A : Type ℓ} {B : Type ℓ'} where
  pub Survives-lift :
      (r : Outcome A) (f : A → S → Outcome B × S) (s : S)
      → Survives r
      → ((a : A) → r ≡ ok a → Survives (f a s).0)
      → Survives ((lift r >>= f) s).0
  Survives-lift (ok a) f s h k = k a refl
  Survives-lift (throws e) f s h k = λ q. cc
  Survives-lift undefined f s h k = λ q. cc
  Survives-lift terminates f s h k = λ q. h refl

  Survives-continue :
      (r : Outcome A) (f : A → S → Outcome B × S) (s : S)
      → Survives r
      → ((a : A) → Survives (f a s).0)
      → Survives (continue r f s).0
  Survives-continue (ok a) f s h k = k a
  Survives-continue (throws e) f s h k = λ q. cc
  Survives-continue undefined f s h k = λ q. cc
  Survives-continue terminates f s h k = λ q. h refl

module _ {ℓ} {S : Type 0} {B : Type ℓ} where
  pub Survives-then :
      (f : S → Outcome (Unit {0}) × S) (g : S → Outcome B × S) (s : S)
      → Survives (f s).0
      → Survives (g (f s).1).0
      → Survives ((f >> g) s).0
  Survives-then f g s h k = Survives-continue (f s).0 (λ _. g) (f s).1 h λ _. k

  pub Survives-if :
      (b : Bool) (x y : Outcome B × S)
      → (b ≡ true → Survives x.0)
      → (b ≡ false → Survives y.0)
      → Survives (if b then x else y).0
  Survives-if true x y p q = p refl
  Survives-if false x y p q = q refl
