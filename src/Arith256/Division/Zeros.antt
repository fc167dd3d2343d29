-- ===== src/Arith256/Division/Zeros.antt =====
-- A function that counts leading zero bits, as LLVM describes `ctlz`: there is one.
use native.Mathlib.Nat.{one-le-pow}
use evmjit.Prelude.{
  ℕ, zero, suc, ◌-◌, ◌^◌, inl, inr, leb, Bool-cases, leb→le, leb→lt, arith, if◌then◌else◌, refl,
  ◌≡◌,
}
use evmjit.Arith256.Division.Laws.{CountsZeros}

unfoldable pub leading_zeros : ℕ → ℕ → ℕ
leading_zeros zero x = 0
leading_zeros (suc w) x = let rest = leading_zeros w x in if leb (2 ^ w) x then 0 else suc rest

pub leading_zeros-CountsZeros : (w : ℕ) → CountsZeros w (leading_zeros w)
unfolding leading_zeros
leading_zeros-CountsZeros zero x some_x fits = absurd (omega arith)
leading_zeros-CountsZeros (suc w) x some_x fits = elim (Bool-cases (leb (2 ^ w) x)) [
  | inl first ↦
      let e : suc w - 1 - 0 ≡ w = omega arith in
      let e' : suc w - 0 ≡ suc w = omega arith in
      rw (first, e, e') (omega arith, leb→le (2 ^ w) x first, fits)
  | inr later ↦
      let (lt, from, to) = leading_zeros-CountsZeros w x some_x (leb→lt (2 ^ w) x later) in
      let e : suc w - 1 - suc (leading_zeros w x) ≡ w - 1 - leading_zeros w x = omega arith in
      let e' : suc w - suc (leading_zeros w x) ≡ w - leading_zeros w x = omega arith in
      rw (later, e, e') (omega (arith, lt), from, to)
]

-- All bits of 0 are zero.
pub leading_zeros-zero : (w : ℕ) → leading_zeros w 0 ≡ w
unfolding leading_zeros
leading_zeros-zero zero = refl
leading_zeros-zero (suc w) = let e = leading_zeros-zero w in ground (arith, e, one-le-pow w 2)
