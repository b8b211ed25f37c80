-- ===== src/Common/Int.antt =====
-- The fixed-width integers of the program: `int` and `int32_t` as signed numbers with a range.
use Prim.Native.Nat.{ℕ, ◌<◌, ◌^◌}
use mathlib.Core.Path.{◌≡◌}
use mathlib.Core.Logic.{◌↔◌}
use mathlib.Core.Bool.{Bool, true, false}
use native.Mathlib.Omega.{arith}
use barbarossa.Common.Tests.{◌==◌}

-- `negsuc n` is -(n + 1).
pub data ℤ : Type 0 where
  pos : ℕ → ℤ
  negsuc : ℕ → ℤ

-- The values of a 32-bit signed integer.
abbrev pub IsInt32 : ℤ → Type 0
IsInt32 (pos n) = n < 2 ^ 31
IsInt32 (negsuc n) = n < 2 ^ 31

abbrev pub int_eq : ℤ → ℤ → Bool
int_eq (pos m) (pos n) = m == n
int_eq (negsuc m) (negsuc n) = m == n
int_eq _ _ = false

pub int_eq_refl : (n : ℤ) → int_eq n n ≡ true
int_eq_refl (pos n) = ground arith
int_eq_refl (negsuc n) = ground arith

pub int_eq_iff : (m n : ℤ) → (int_eq m n ≡ true) ↔ (m ≡ n)
int_eq_iff (pos m) (pos n) = (λ h. ground arith, λ h. ground arith)
int_eq_iff (negsuc m) (negsuc n) = (λ h. ground arith, λ h. ground arith)
int_eq_iff (pos m) (negsuc n) = (λ h. ground arith, λ h. ground arith)
int_eq_iff (negsuc m) (pos n) = (λ h. ground arith, λ h. ground arith)
