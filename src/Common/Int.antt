-- ===== src/Common/Int.antt =====
-- Signed integers over the native numbers: what the counters and the clock differences need.
use shutilspy.Common.{arith}
use Prim.Native.Nat.{ℕ, zero, suc, ◌+◌, ◌-◌, ◌≤◌}
use shutilspy.Common.Tests.{leb, if◌then◌else◌}

-- `negsuc n` is -(n + 1).
pub data ℤ : Type 0 where
  pos : ℕ → ℤ
  negsuc : ℕ → ℤ

abbrev pub pos_part : ℤ → ℕ
pos_part (pos n) = n
pos_part (negsuc n) = 0

abbrev pub neg_part : ℤ → ℕ
neg_part (pos n) = 0
neg_part (negsuc n) = suc n

-- a - b, as an integer.
abbrev pub sub_ℕ : ℕ → ℕ → ℤ
sub_ℕ a b = if leb b a then pos (a - b) else negsuc (b - a - 1)

infix 50 ◌≤ℤ◌ ◌<ℤ◌
abbrev pub ◌≤ℤ◌ : ℤ → ℤ → Type 0
a ≤ℤ b = pos_part a + neg_part b ≤ pos_part b + neg_part a

abbrev pub ◌<ℤ◌ : ℤ → ℤ → Type 0
a <ℤ b = suc (pos_part a + neg_part b) ≤ pos_part b + neg_part a

abbrev pub succ_ℤ : ℤ → ℤ
succ_ℤ (pos n) = pos (suc n)
succ_ℤ (negsuc zero) = pos 0
succ_ℤ (negsuc (suc n)) = negsuc n

abbrev pub pred_ℤ : ℤ → ℤ
pred_ℤ (pos zero) = negsuc 0
pred_ℤ (pos (suc n)) = pos n
pred_ℤ (negsuc n) = negsuc (suc n)

pub lt_succ : (i c : ℤ) → i <ℤ c → i <ℤ succ_ℤ c
lt_succ i (pos n) h = omega (arith, h)
lt_succ i (negsuc zero) h = omega (arith, h)
lt_succ i (negsuc (suc n)) h = omega (arith, h)

pub lt_succ_self : (c : ℤ) → c <ℤ succ_ℤ c
lt_succ_self (pos n) = omega arith
lt_succ_self (negsuc zero) = omega arith
lt_succ_self (negsuc (suc n)) = omega arith

pub pred_lt : (i c : ℤ) → c <ℤ i → pred_ℤ c <ℤ i
pred_lt i (pos zero) h = omega (arith, h)
pred_lt i (pos (suc n)) h = omega (arith, h)
pred_lt i (negsuc n) h = omega (arith, h)

pub pred_lt_self : (c : ℤ) → pred_ℤ c <ℤ c
pred_lt_self (pos zero) = omega arith
pred_lt_self (pos (suc n)) = omega arith
pred_lt_self (negsuc n) = omega arith
