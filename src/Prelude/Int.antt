-- ===== src/Prelude/Int.antt =====
-- Signed integers over the native numbers (C++ `int`), under the library's names.
use Prim.Native.Nat.{ℕ, suc, ◌+◌, ◌-◌, ◌≤◌, ◌<◌}
use mathlib.Core.Path.{◌≡◌}
use native.Mathlib.Omega.{arith}
use polymarket_cpp.Prelude.Tests.{leb, if◌then◌else◌}

-- `negsuc n` is -(n + 1).
pub data ℤ : Type 0 where
  pos : ℕ → ℤ
  negsuc : ℕ → ℤ

abbrev pub pos_part : ℤ → ℕ
pos_part (pos n) = n
pos_part (negsuc n) = 0

abbrev pub neg_part : ℤ → ℕ
neg_part (pos n) = 0
neg_part (negsuc n) = suc n

-- a - b, as an integer.
abbrev pub sub_ℕ : ℕ → ℕ → ℤ
sub_ℕ a b = if leb b a then pos (a - b) else negsuc (b - a - 1)

infixl 65 ◌+ℤ◌
unfoldable pub ◌+ℤ◌ : ℤ → ℤ → ℤ
a +ℤ b = sub_ℕ (pos_part a + pos_part b) (neg_part a + neg_part b)

pub +ℤ_parts :
    (a b : ℤ)
    → pos_part (a +ℤ b) + neg_part a + neg_part b ≡ neg_part (a +ℤ b) + pos_part a + pos_part b
unfolding ◌+ℤ◌
+ℤ_parts a b = ground arith

pub +ℤ_zero : (a : ℤ) → a +ℤ pos 0 ≡ a
unfolding ◌+ℤ◌
+ℤ_zero a = ground arith

pub zero_+ℤ : (a : ℤ) → pos 0 +ℤ a ≡ a
unfolding ◌+ℤ◌
zero_+ℤ a = ground arith

pub pos_+ℤ : (a k : ℕ) → pos a +ℤ pos k ≡ pos (a + k)
unfolding ◌+ℤ◌
pos_+ℤ a k = ground arith

pub negsuc_+ℤ_le : (a k : ℕ) → suc a ≤ k → negsuc a +ℤ pos k ≡ pos (k - suc a)
unfolding ◌+ℤ◌
negsuc_+ℤ_le a k h = ground arith

pub negsuc_+ℤ_lt : (a k : ℕ) → k < suc a → negsuc a +ℤ pos k ≡ negsuc (suc a - k - 1)
unfolding ◌+ℤ◌
negsuc_+ℤ_lt a k h = ground arith
