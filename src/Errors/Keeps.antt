-- ===== src/Errors/Keeps.antt =====
-- Predicates that a method keeps: the rules for the ways in which methods are put together.
use barbarossa.Common.{◌≡◌, refl, Bool, true, false, if◌then◌else◌}
use barbarossa.Errors.Outcome.{Outcome, ok, throws, undefined, terminates}
use barbarossa.Errors.Exec.{lift, continue, ◌>>=◌, ◌>>◌}

module _ {ℓ ℓ' κ} {S : Type 0} {A : Type ℓ} {B : Type ℓ'} (P : S → Type κ) where
  pub keeps_lift :
      (r : Outcome A) (f : A → S → Outcome B × S) (s : S)
      → P s
      → ((a : A) → P (f a s).1)
      → P ((lift r >>= f) s).1
  keeps_lift (ok a) f s h k = k a
  keeps_lift (throws e) f s h k = h
  keeps_lift undefined f s h k = h
  keeps_lift terminates f s h k = h

  -- The same, where what follows may use that `r` returned.
  pub keeps_lift_ok :
      (r : Outcome A) (f : A → S → Outcome B × S) (s : S)
      → P s
      → ((a : A) → r ≡ ok a → P (f a s).1)
      → P ((lift r >>= f) s).1
  keeps_lift_ok (ok a) f s h k = k a refl
  keeps_lift_ok (throws e) f s h k = h
  keeps_lift_ok undefined f s h k = h
  keeps_lift_ok terminates f s h k = h

  keeps_continue :
      (r : Outcome A) (f : A → S → Outcome B × S) (s : S)
      → P s
      → ((a : A) (u : S) → P u → P (f a u).1)
      → P (continue r f s).1
  keeps_continue (ok a) f s h k = k a s h
  keeps_continue (throws e) f s h k = h
  keeps_continue undefined f s h k = h
  keeps_continue terminates f s h k = h

module _ {ℓ κ} {S : Type 0} {B : Type ℓ} (P : S → Type κ) where
  -- Two steps keep what each keeps.
  pub keeps_then :
      (f : S → Outcome (Unit {0}) × S) (g : S → Outcome B × S) (s : S)
      → P (f s).1
      → ((u : S) → P u → P (g u).1)
      → P ((f >> g) s).1
  keeps_then f g s h k = keeps_continue P (f s).0 (λ _. g) (f s).1 h λ _. k

  -- A test keeps what both its branches keep.
  pub keeps_if : (b : Bool) (x y : Outcome B × S) → P x.1 → P y.1 → P (if b then x else y).1
  keeps_if true x y p q = p
  keeps_if false x y p q = q

  -- The same, where each branch may use how the test came out.
  pub keeps_test :
      (b : Bool) (x y : Outcome B × S)
      → (b ≡ true → P x.1)
      → (b ≡ false → P y.1)
      → P (if b then x else y).1
  keeps_test true x y p q = p refl
  keeps_test false x y p q = q refl
