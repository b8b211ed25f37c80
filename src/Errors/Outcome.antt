-- ===== src/Errors/Outcome.antt =====
-- The outcomes of a C++ call, and their chains.
use barbarossa.Common.{Option, none, some}
use barbarossa.Errors.{Exception}

-- A call returns, throws, has undefined behaviour, or ends the process by `std::terminate`.
pub data Outcome {ℓ} (A : Type ℓ) : Type ℓ where
  ok : A → Outcome A
  throws : Exception → Outcome A
  undefined terminates : Outcome A

infixl 5 ◌>>=◌
abbrev pub ◌>>=◌ {ℓ κ} : {A : Type ℓ} {B : Type κ} → Outcome A → (A → Outcome B) → Outcome B
ok a >>= next = next a
throws e >>= next = throws e
undefined >>= next = undefined
terminates >>= next = terminates

-- The value of an option, or an exception.
abbrev pub or_throw {ℓ} : {A : Type ℓ} → Exception → Option A → Outcome A
or_throw e none = throws e
or_throw e (some a) = ok a

-- An exception that leaves `main`, the function of a thread or a `noexcept` function ends the process.
abbrev pub uncaught {ℓ} : {A : Type ℓ} → Outcome A → Outcome A
uncaught (throws e) = terminates
uncaught (ok a) = ok a
uncaught undefined = undefined
uncaught terminates = terminates
