-- ===== src/Prelude/Int.antt =====
-- C's `int` as an integer; a sum that leaves the range of `int` is kept apart by each module.
use Prim.Native.Nat.{ℕ, zero, suc, ◌+◌, ◌≤◌}
use mathlib.Core.Path.{◌≡◌}
use mathlib.Core.Logic.{◌↔◌}
use mathlib.Core.Bool.{Bool, true, false}
use native.Mathlib.Omega.{arith}
use linux_system_programming.Prelude.Tests.{ltb, ◌==◌}

-- `negsuc n` is -(n + 1).
pub data ℤ : Type 0 where
  pos : ℕ → ℤ
  negsuc : ℕ → ℤ

-- INT_MAX
abbrev pub int_max : ℕ
int_max = 2147483647

abbrev pub minus_one : ℤ
minus_one = negsuc 0

abbrev pub pos_part : ℤ → ℕ
pos_part (pos n) = n
pos_part (negsuc n) = 0

abbrev pub neg_part : ℤ → ℕ
neg_part (pos n) = 0
neg_part (negsuc n) = suc n

-- ++i
abbrev pub suc_int : ℤ → ℤ
suc_int (pos n) = pos (suc n)
suc_int (negsuc zero) = pos 0
suc_int (negsuc (suc n)) = negsuc n

abbrev pub eq_int : ℤ → ℤ → Bool
eq_int (pos a) (pos b) = a == b
eq_int (negsuc a) (negsuc b) = a == b
eq_int (pos a) (negsuc b) = false
eq_int (negsuc a) (pos b) = false

abbrev pub lt_int : ℤ → ℤ → Bool
lt_int a b = ltb (pos_part a + neg_part b) (pos_part b + neg_part a)

infix 50 ◌≤ℤ◌
abbrev pub ◌≤ℤ◌ : ℤ → ℤ → Type 0
a ≤ℤ b = pos_part a + neg_part b ≤ pos_part b + neg_part a

pub eq_int_iff : (a b : ℤ) → (eq_int a b ≡ true) ↔ (a ≡ b)
eq_int_iff (pos a) (pos b) = ground arith
eq_int_iff (negsuc a) (negsuc b) = ground arith
eq_int_iff (pos a) (negsuc b) = ground arith
eq_int_iff (negsuc a) (pos b) = ground arith

pub lt_int→le : (a b : ℤ) → lt_int a b ≡ false → b ≤ℤ a
lt_int→le a b h = ground arith

-- --i
abbrev pub pred_int : ℤ → ℤ
pred_int (pos zero) = negsuc 0
pred_int (pos (suc n)) = pos n
pred_int (negsuc n) = negsuc (suc n)
