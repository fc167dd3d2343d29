-- ===== src/Prelude/Int.antt =====
-- Integers over the native numbers, as far as `ssize_t` counters need them.
use Prim.Native.Nat.{ℕ, suc, ◌+◌, ◌-◌, max}
use mathlib.Core.Path.{◌≡◌}
use mathlib.Core.Bool.{Bool}
use native.Mathlib.Omega.{arith}
use evmjit.Prelude.Tests.{leb, if◌then◌else◌}

-- `negsuc n` is -(n + 1).
pub data ℤ : Type 0 where
  pos negsuc : ℕ → ℤ

abbrev pub pos_part : ℤ → ℕ
pos_part (pos n) = n
pos_part (negsuc n) = 0

abbrev pub neg_part : ℤ → ℕ
neg_part (pos n) = 0
neg_part (negsuc n) = suc n

-- a - b.
unfoldable pub sub_ℕ : ℕ → ℕ → ℤ
sub_ℕ a b = if leb b a then pos (a - b) else negsuc (b - a - 1)

infixl 65 ◌+ℤ◌
unfoldable pub ◌+ℤ◌ : ℤ → ℤ → ℤ
unfolding sub_ℕ
a +ℤ b = sub_ℕ (pos_part a + pos_part b) (neg_part a + neg_part b)

-- a ≤ b, as a test.
unfoldable pub leb_ℤ : ℤ → ℤ → Bool
leb_ℤ a b = leb (pos_part a + neg_part b) (pos_part b + neg_part a)

unfoldable pub min_ℤ : ℤ → ℤ → ℤ
unfolding leb_ℤ
min_ℤ a b = if leb_ℤ a b then a else b

unfoldable pub max_ℤ : ℤ → ℤ → ℤ
unfolding leb_ℤ
max_ℤ a b = if leb_ℤ a b then b else a

pub pos_part-sub_ℕ : (a b : ℕ) → pos_part (sub_ℕ a b) ≡ a - b
unfolding sub_ℕ
pos_part-sub_ℕ a b = ground arith

pub neg_part-sub_ℕ : (a b : ℕ) → neg_part (sub_ℕ a b) ≡ b - a
unfolding sub_ℕ
neg_part-sub_ℕ a b = ground arith

pub neg_part-min_ℤ : (a b : ℤ) → neg_part (min_ℤ a b) ≡ max (neg_part a) (neg_part b)
unfolding min_ℤ
neg_part-min_ℤ a b = ground arith

pub max_ℤ-pos : (m : ℕ) (b : ℤ) → max_ℤ (pos m) b ≡ pos (max m (pos_part b))
unfolding max_ℤ
max_ℤ-pos m (pos n) = ground arith
max_ℤ-pos m (negsuc n) = ground arith
