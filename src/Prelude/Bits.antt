-- ===== src/Prelude/Bits.antt =====
-- The bit operations of machine words, as arithmetic: a disjoint `|` is a sum, `&` with a run of
-- low ones a remainder.
use Prim.Native.Nat.{
  ℕ, zero, suc, ◌+◌, ◌-◌, ◌*◌, ◌/◌, ◌%◌, ◌^◌, ◌≤◌, ◌<◌, min, max, digits, bit_and, bit_or,
  bit_and-bitwise, bit_or-bitwise,
}
use mathlib.Core.Path.{◌≡◌, refl, ap}
use native.Mathlib.Nat.{pow-suc, one-le-pow}
use native.Mathlib.Omega.{arith}

-- Two counts of digits that are both large enough give one result.
digits_agree :
    (z : ℕ → ℕ) (f : ℕ → ℕ → ℕ) (a n m b : ℕ) → a ≤ n → a ≤ m → digits z f n a b ≡ digits z f m a b
digits_agree z f zero zero zero b p q = refl
digits_agree z f zero zero (suc m) b p q = refl
digits_agree z f zero (suc n) zero b p q = refl
digits_agree z f zero (suc n) (suc m) b p q = refl
digits_agree z f (suc a) zero m b p q = absurd (omega arith)
digits_agree z f (suc a) (suc n) zero b p q = absurd (omega arith)
digits_agree z f (suc a) (suc n) (suc m) b p q =
    rw (digits_agree z f (suc a / 2) n m (b / 2) (omega arith) (omega arith))

pub bit_and_halves : (a b : ℕ) → bit_and a b ≡ bit_and (a / 2) (b / 2) * 2 + min (a % 2) (b % 2)
bit_and_halves zero b = simp bit_and-bitwise (omega arith)
bit_and_halves (suc a) b =
    let rest =
      digits_agree (λ _. zero) min (suc a / 2) a (suc a / 2) (b / 2) (omega arith) (omega arith) in
    omega (arith, rest, bit_and-bitwise (suc a / 2) (b / 2), bit_and-bitwise (suc a) b)

pub bit_or_halves : (a b : ℕ) → bit_or a b ≡ bit_or (a / 2) (b / 2) * 2 + max (a % 2) (b % 2)
bit_or_halves zero b = simp bit_or-bitwise (omega arith)
bit_or_halves (suc a) b = omega (
  arith,
  bit_or-bitwise (suc a) b,
  bit_or-bitwise (suc a / 2) (b / 2),
  digits_agree (λ y. y) max (suc a / 2) a (suc a / 2) (b / 2) (omega arith) (omega arith),
)

bit_or-zero_below : (n a : ℕ) → a ≤ n → bit_or a 0 ≡ a
bit_or-zero_below n zero h = refl
bit_or-zero_below zero (suc a) h = absurd (omega arith)
bit_or-zero_below (suc n) (suc a) h =
    omega (arith, bit_or_halves (suc a) 0, bit_or-zero_below n (suc a / 2) (omega arith))

pub bit_or-zero : (a : ℕ) → bit_or a 0 ≡ a
bit_or-zero a = bit_or-zero_below a a (omega arith)

bit_and-zero_below : (n a : ℕ) → a ≤ n → bit_and a 0 ≡ 0
bit_and-zero_below n zero h = refl
bit_and-zero_below zero (suc a) h = absurd (omega arith)
bit_and-zero_below (suc n) (suc a) h =
    omega (arith, bit_and_halves (suc a) 0, bit_and-zero_below n (suc a / 2) (omega arith))

pub bit_and-zero : (a : ℕ) → bit_and a 0 ≡ 0
bit_and-zero a = bit_and-zero_below a a (omega arith)

pub double_pow : (q k : ℕ) → q * 2 ^ suc k ≡ 2 * (q * 2 ^ k)
double_pow q k = omega (arith, ap (λ (t : ℕ). q * t) (pow-suc 2 k))

-- `(q << k) | r` for an `r` of `k` bits.
pub bit_or_shifted : (k q r : ℕ) → r < 2 ^ k → bit_or (q * 2 ^ k) r ≡ q * 2 ^ k + r
bit_or_shifted zero q r h = ground (arith, bit_or-zero q)
bit_or_shifted (suc k) q r h = ground (
  arith,
  double_pow q k,
  pow-suc 2 k,
  bit_or_halves (q * 2 ^ suc k) r,
  bit_or_shifted k q (r / 2) (omega arith),
)

-- `(q << k | r) & ((1 << k) - 1)` is `r`.
bit_and_low : (k q r : ℕ) → r < 2 ^ k → bit_and (q * 2 ^ k + r) (2 ^ k - 1) ≡ r
bit_and_low zero q r h = rw bit_and-zero (omega arith)
bit_and_low (suc k) q r h = ground (
  arith,
  double_pow q k,
  pow-suc 2 k,
  bit_and_halves (q * 2 ^ suc k + r) (2 ^ suc k - 1),
  bit_and_low k q (r / 2) (omega arith),
)

pub bit_and_ones : (k a : ℕ) → bit_and a (2 ^ k - 1) ≡ a % 2 ^ k
bit_and_ones k a = ground (arith, one-le-pow k 2, bit_and_low k (a / 2 ^ k) (a % 2 ^ k))

-- `x & (m << k)` drops the low `k` bits of `x`.
pub bit_and_shifted :
    (k q r m : ℕ) → r < 2 ^ k → bit_and (q * 2 ^ k + r) (m * 2 ^ k) ≡ bit_and q m * 2 ^ k
bit_and_shifted zero q r m h =
    let e : q * 2 ^ 0 + r ≡ q = omega arith in
    let e' : m * 2 ^ 0 ≡ m = omega arith in rw (e, e') (omega arith)
bit_and_shifted (suc k) q r m h = ground (
  arith,
  double_pow q k,
  double_pow m k,
  double_pow (bit_and q m) k,
  pow-suc 2 k,
  bit_and_halves (q * 2 ^ suc k + r) (m * 2 ^ suc k),
  bit_and_shifted k q (r / 2) m (omega arith),
)

-- `x | (m << k)` keeps the low `k` bits of `x`.
pub bit_or_high :
    (k q r m : ℕ) → r < 2 ^ k → bit_or (q * 2 ^ k + r) (m * 2 ^ k) ≡ bit_or q m * 2 ^ k + r
bit_or_high zero q r m h =
    let e : q * 2 ^ 0 + r ≡ q = omega arith in
    let e' : m * 2 ^ 0 ≡ m = omega arith in rw (e, e') (omega arith)
bit_or_high (suc k) q r m h = ground (
  arith,
  double_pow q k,
  double_pow m k,
  double_pow (bit_or q m) k,
  pow-suc 2 k,
  bit_or_halves (q * 2 ^ suc k + r) (m * 2 ^ suc k),
  bit_or_high k q (r / 2) m (omega arith),
)

-- `x | (ones)` is all ones.
pub bit_or_ones : (j q : ℕ) → q < 2 ^ j → bit_or q (2 ^ j - 1) ≡ 2 ^ j - 1
bit_or_ones zero q h = ground (arith, bit_or-zero q)
bit_or_ones (suc j) q h = ground (
  arith,
  pow-suc 2 j,
  one-le-pow j 2,
  bit_or_halves q (2 ^ suc j - 1),
  bit_or_ones j (q / 2) (omega (arith, h, pow-suc 2 j)),
)
