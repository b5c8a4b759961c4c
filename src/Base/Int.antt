-- ===== src/Base/Int.antt =====
-- The C `int` as an integer. Its overflow is undefined in C and does not occur here.
use Prim.Native.Nat.{ℕ, zero, suc}
use mathlib.Core.Path.{◌≡◌, refl}
use mathlib.Core.Logic.{◌↔◌}
use mathlib.Core.Bool.{Bool, true, false}
use native.Mathlib.Omega.{arith}
use network_programming_nctu.Base.Tests.{◌==◌}

-- `negsuc n` is -(n + 1).
pub data ℤ : Type 0 where
  pos : ℕ → ℤ
  negsuc : ℕ → ℤ

-- `x--`
unfoldable pub pred_int : ℤ → ℤ
pred_int (pos zero) = negsuc 0
pred_int (pos (suc n)) = pos n
pred_int (negsuc n) = negsuc (suc n)

infix 50 ◌==ℤ◌
unfoldable pub ◌==ℤ◌ : ℤ → ℤ → Bool
pos a ==ℤ pos b = a == b
negsuc a ==ℤ negsuc b = a == b
pos a ==ℤ negsuc b = false
negsuc a ==ℤ pos b = false

pub ==ℤ_iff : (a b : ℤ) → ((a ==ℤ b) ≡ true) ↔ (a ≡ b)
unfolding ◌==ℤ◌
==ℤ_iff (pos a) (pos b) = (λ h. ground arith, λ h. ground arith)
==ℤ_iff (negsuc a) (negsuc b) = (λ h. ground arith, λ h. ground arith)
==ℤ_iff (pos a) (negsuc b) = (λ h. cc, λ h. cc)
==ℤ_iff (negsuc a) (pos b) = (λ h. cc, λ h. cc)

pub pred_int-injective : (a b : ℤ) → pred_int a ≡ pred_int b → a ≡ b
unfolding pred_int
pred_int-injective (pos zero) (pos zero) h = refl
pred_int-injective (pos zero) (pos (suc n)) h = cc
pred_int-injective (pos zero) (negsuc n) h = ground arith
pred_int-injective (pos (suc m)) (pos zero) h = cc
pred_int-injective (pos (suc m)) (pos (suc n)) h = ground arith
pred_int-injective (pos (suc m)) (negsuc n) h = cc
pred_int-injective (negsuc m) (pos zero) h = ground arith
pred_int-injective (negsuc m) (pos (suc n)) h = cc
pred_int-injective (negsuc m) (negsuc n) h = ground arith

pub ==ℤ_comm : (a b : ℤ) → (a ==ℤ b) ≡ (b ==ℤ a)
unfolding ◌==ℤ◌
==ℤ_comm (pos a) (pos b) = ground arith
==ℤ_comm (negsuc a) (negsuc b) = ground arith
==ℤ_comm (pos a) (negsuc b) = refl
==ℤ_comm (negsuc a) (pos b) = refl
