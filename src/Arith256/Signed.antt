-- ===== src/Arith256/Signed.antt =====
-- `getUDiv256Func`, `createURemFunc`, `getSDivRem256Func`, `getSDiv256Func` and `getSRem256Func` of
-- libevmjit/Arith256.cpp. A signed word is the two's complement of 256 bits.
use native.Mathlib.Nat.{zero-div, zero-mod}
use evmjit.Prelude.{
  ℕ, ◌-◌, ◌/◌, ◌%◌, ◌^◌, ◌≤◌, ◌<◌, ◌≡◌, refl, ap, Bool, true, false, not, ◌&&◌, ◌==◌, leb, arith,
  ==_iff, lt→eqb', if◌then◌else◌,
}
use evmjit.Arith256.Division.{udivrem}
use evmjit.Arith256.Division.Laws.{CountsZeros, udivrem_lem}

-- `sub 0, x`.
abbrev pub negate : ℕ → ℕ
negate x = (2 ^ 256 - x) % 2 ^ 256

-- `icmp slt x, 0`.
abbrev pub is_neg : ℕ → Bool
is_neg x = leb (2 ^ 255) x

abbrev pub magnitude : ℕ → ℕ
magnitude x = if is_neg x then negate x else x

abbrev pub xor : Bool → Bool → Bool
xor a b = if a then not b else b

module _ (ctlz : ℕ → ℕ) where
  unfoldable pub udiv : ℕ → ℕ → ℕ
  udiv x y = (udivrem 256 ctlz x y).0

  -- Of words, or of numbers of 512 bits.
  unfoldable pub urem : ℕ → ℕ → ℕ → ℕ
  urem width x y = (udivrem width ctlz x y).1

  unfoldable pub sdivrem : ℕ → ℕ → ℕ × ℕ
  sdivrem x y =
      let (q_abs, r_abs) = udivrem 256 ctlz (magnitude x) (magnitude y) in
      let r = if is_neg x then negate r_abs else r_abs in
      let q = if xor (is_neg x) (is_neg y) then negate q_abs else q_abs in (q, r)

  unfoldable pub sdiv : ℕ → ℕ → ℕ
  unfolding sdivrem
  sdiv x y = (sdivrem x y).0

  unfoldable pub srem : ℕ → ℕ → ℕ
  unfolding sdivrem
  srem x y = (sdivrem x y).1

-- The word of a number given by its sign, true where it is negative, and its absolute value.
abbrev pub word_of : Bool → ℕ → ℕ
word_of negative m = if negative then (2 ^ 256 - m) % 2 ^ 256 else m

-- The numbers that a signed word holds.
abbrev pub InRange : Bool → ℕ → Type 0
InRange true m = m ≤ 2 ^ 255
InRange false m = m < 2 ^ 255

magnitude-word_of : (s : Bool) (m : ℕ) → InRange s m → magnitude (word_of s m) ≡ m
magnitude-word_of true m h = ground arith
magnitude-word_of false m h = ground arith

is_neg-word_of : (s : Bool) (m : ℕ) → InRange s m → is_neg (word_of s m) ≡ (s && not (m == 0))
is_neg-word_of true m h = ground arith
is_neg-word_of false m h = ground arith

pub InRange-lt : (s : Bool) (m : ℕ) → InRange s m → m < 2 ^ 256
InRange-lt true m h = omega arith
InRange-lt false m h = omega arith

-- A zero has no sign.
zero_unsigned :
    (s t z : Bool) (q r : ℕ)
    → (z ≡ true → (q ≡ 0) × (r ≡ 0))
    → Path
        (ℕ × ℕ)
        (word_of (xor (s && not z) (t && true)) q, word_of (s && not z) r)
        (word_of (xor s t) q, word_of s r)
zero_unsigned true true false q r h = refl
zero_unsigned true false false q r h = refl
zero_unsigned false true z q r h = refl
zero_unsigned false false z q r h = refl
zero_unsigned true true true q r h = rw ((h refl).0, (h refl).1)
zero_unsigned true false true q r h = rw ((h refl).0, (h refl).1)

module _ (ctlz : ℕ → ℕ) (counts : CountsZeros 256 ctlz) (s t : Bool) (m n : ℕ)
    (m_fits : InRange s m) (n_fits : InRange t n) (some_n : 0 < n) where
  -- `evm.sdivrem.i256` on any two signed words, the divisor not 0: the quotient is that of the
  -- absolute values, negative where exactly one sign is, and the remainder is that of the absolute
  -- values with the sign of the dividend. The least number divided by -1 wraps to itself.
  pub sdivrem_lem :
      sdivrem ctlz (word_of s m) (word_of t n) ≡ (word_of (xor s t) (m / n), word_of s (m % n))
  unfolding sdivrem
  sdivrem_lem =
      let divided = udivrem_lem 256 ctlz counts m n some_n (InRange-lt s m m_fits) in
      let positive : (n == 0) ≡ false = lt→eqb' n 0 some_n in
      rw
        (
          magnitude-word_of s m m_fits,
          magnitude-word_of t n n_fits,
          is_neg-word_of s m m_fits,
          is_neg-word_of t n n_fits,
          divided,
          positive,
        )
        (zero_unsigned s t (m == 0) (m / n) (m % n) (λ none_left.
          let nothing : m ≡ 0 = (==_iff m 0).0 none_left in rw nothing (zero-div n, zero-mod n)))

  pub sdiv_lem : sdiv ctlz (word_of s m) (word_of t n) ≡ word_of (xor s t) (m / n)
  unfolding sdiv
  sdiv_lem = ap (λ (r : ℕ × ℕ). r.0) sdivrem_lem

  pub srem_lem : srem ctlz (word_of s m) (word_of t n) ≡ word_of s (m % n)
  unfolding srem
  srem_lem = ap (λ (r : ℕ × ℕ). r.1) sdivrem_lem
