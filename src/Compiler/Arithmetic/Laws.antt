-- ===== src/Compiler/Arithmetic/Laws.antt =====
-- The arithmetic instructions against the numbers that the EVM asks for.
use native.Mathlib.Nat.{mod-lt, mul-le-mul}
use evmjit.Prelude.{
  ℕ, ◌+◌, ◌-◌, ◌*◌, ◌/◌, ◌%◌, ◌^◌, ◌<◌, ◌≡◌, refl, inl, inr, Bool, true, false, not, ◌&&◌, ◌==◌,
  Bool-cases, arith, if◌then◌else◌,
}
use evmjit.Arith256.Division.Laws.{CountsZeros, udivrem_lem}
use evmjit.Arith256.Signed.{udiv, urem, word_of, InRange, xor, sdiv_lem, srem_lem, negate}
use evmjit.Compiler.Arithmetic.{minus_one, slt, sgt, eq, div, sdiv_word, umod, smod, addmod, mulmod}

-- Of any two words exactly one is less than the other as a signed number, or they are equal.
pub slt-sgt-eq : (a b : ℕ) → a < 2 ^ 256 → b < 2 ^ 256 → slt a b + sgt a b + eq a b ≡ 1
unfolding slt sgt eq
slt-sgt-eq a b ha hb = ground arith

module _ (ctlz : ℕ → ℕ) (counts : CountsZeros 256 ctlz) (d n : ℕ) (d_fits : d < 2 ^ 256) where
  -- DIV and MOD yield the quotient and the remainder of unsigned words, and 0 for a divisor of 0.
  pub div-umod_lem :
      (div ctlz d n ≡ (if n == 0 then 0 else d / n))
      × (umod ctlz d n ≡ (if n == 0 then 0 else d % n))
  unfolding div umod udiv urem
  div-umod_lem = elim (Bool-cases (n == 0)) [
    | inl nothing ↦ rw nothing (refl, refl)
    | inr something ↦
        let divided = udivrem_lem 256 ctlz counts d n (ground arith) d_fits in
        rw (something, udiv, urem, divided) (refl, refl)
  ]

-- With a width of 512 bits no sum and no product of words is cut off.
urem_wide :
    (ctlz : ℕ → ℕ) (x m : ℕ)
    → CountsZeros 512 ctlz
    → x < 2 ^ 512
    → m < 2 ^ 256
    → (if m == 0 then 0 else urem ctlz 512 x m % 2 ^ 256) ≡ (if m == 0 then 0 else x % m)
unfolding urem
urem_wide ctlz x m counts x_fits m_fits = elim (Bool-cases (m == 0)) [
  | inl nothing ↦ rw nothing
  | inr something ↦
      let some_m : 0 < m = ground arith in
      let divided = udivrem_lem 512 ctlz counts x m some_m x_fits in
      let small : x % m % 2 ^ 256 ≡ x % m = omega (arith, mod-lt x some_m, m_fits) in
      rw (something, urem, divided, small)
]

module _ (ctlz : ℕ → ℕ) (counts : CountsZeros 512 ctlz) (a b m : ℕ) (a_fits : a < 2 ^ 256)
    (b_fits : b < 2 ^ 256) (m_fits : m < 2 ^ 256) where
  -- ADDMOD and MULMOD reduce the whole sum and the whole product, no bit of which is lost to the width
  -- of a word, and yield 0 for a modulus of 0.
  pub addmod-mulmod_lem :
      (addmod ctlz a b m ≡ (if m == 0 then 0 else (a + b) % m))
      × (mulmod ctlz a b m ≡ (if m == 0 then 0 else a * b % m))
  unfolding addmod mulmod
  addmod-mulmod_lem =
      let product : a * b < 2 ^ 512 = omega (
        arith,
        mul-le-mul {n₁ = a} {m₁ = b} {n₂ = 2 ^ 256 - 1} {m₂ = 2 ^ 256 - 1} (omega arith)
            (omega arith),
      ) in
      (
        urem_wide ctlz (a + b) m counts (omega arith) m_fits,
        urem_wide ctlz (a * b) m counts product m_fits,
      )

and_false : (t : Bool) → (t && false) ≡ false
and_false true = refl
and_false false = refl

word_of-zero : (t : Bool) (n : ℕ) → InRange t n → (word_of t n == 0) ≡ (n == 0)
word_of-zero true n h = ground arith
word_of-zero false n h = refl

word_of-minus_one : (t : Bool) (n : ℕ) → InRange t n → (word_of t n == minus_one) ≡ (t && (n == 1))
word_of-minus_one true n h = ground arith
word_of-minus_one false n h = ground arith

-- The negation of any signed word, the least one included.
negate-word_of : (s : Bool) (m : ℕ) → InRange s m → negate (word_of s m) ≡ word_of (not s) m
negate-word_of true m h = ground arith
negate-word_of false m h = ground arith

by_one :
    (s : Bool) (m : ℕ)
    → (word_of (not s) m ≡ word_of (xor s true) (m / 1)) × (0 ≡ word_of s (m % 1))
by_one true m = (omega arith, omega arith)
by_one false m = (omega arith, omega arith)

module _ (ctlz : ℕ → ℕ) (counts : CountsZeros 256 ctlz) (s t : Bool) (m n : ℕ)
    (m_fits : InRange s m) (n_fits : InRange t n) where
  -- SDIV and SMOD on any two signed words: the quotient of the absolute values, negative where
  -- exactly one sign is, and the remainder of the absolute values with the sign of the dividend; both
  -- 0 for a divisor of 0. The least number divided by -1 wraps to itself.
  pub sdiv_word-smod_lem :
      (sdiv_word ctlz (word_of s m) (word_of t n)
        ≡ (if n == 0 then 0 else word_of (xor s t) (m / n)))
      × (smod ctlz (word_of s m) (word_of t n) ≡ (if n == 0 then 0 else word_of s (m % n)))
  unfolding sdiv_word smod
  sdiv_word-smod_lem = elim (Bool-cases (n == 0)) [
    | inl nothing ↦
        let same : n ≡ 0 = ground arith in
        rw (word_of-zero t n n_fits, word_of-minus_one t n n_fits, same, and_false t) (refl, refl)
    | inr something ↦
        let some_n : 0 < n = ground arith in
        let quotient = sdiv_lem ctlz counts s t m n m_fits n_fits some_n in
        let remainder = srem_lem ctlz counts s t m n m_fits n_fits some_n in
        rw (word_of-zero t n n_fits, word_of-minus_one t n n_fits, something)
          (elim (Bool-cases (t && (n == 1))) [
            | inl unit ↦
                let negative : t ≡ true = ground arith in
                let one : n ≡ 1 = ground arith in
                rw (unit, negative, one, negate-word_of s m m_fits) (by_one s m)
            | inr other ↦ rw (other, quotient, remainder) (refl, refl)
          ])
  ]

word_of-fits : (s : Bool) (m : ℕ) → InRange s m → word_of s m < 2 ^ 256
word_of-fits true m h = ground arith
word_of-fits false m h = ground arith

module _ (ctlz ctlz_wide : ℕ → ℕ) (counts : CountsZeros 256 ctlz)
    (counts_wide : CountsZeros 512 ctlz_wide) (s t : Bool) (m n k : ℕ) (m_fits : InRange s m)
    (n_fits : InRange t n) (k_fits : k < 2 ^ 256) where
  -- For any two words, given by their signs and their absolute values as signed numbers: DIV and MOD yield
  -- the quotient and the remainder of the words; SDIV and SMOD the quotient of the absolute values, negative
  -- where exactly one sign is, and the remainder with the sign of the dividend; ADDMOD and MULMOD reduce the
  -- whole sum and the whole product by a third word. A divisor or modulus of 0 yields 0, and the least
  -- number divided by -1 wraps to itself.
  pub division_handlers_lem :
      let a = word_of s m in
      let b = word_of t n in
      ((div ctlz a b ≡ (if b == 0 then 0 else a / b))
        × (umod ctlz a b ≡ (if b == 0 then 0 else a % b)))
      × ((sdiv_word ctlz a b ≡ (if n == 0 then 0 else word_of (xor s t) (m / n)))
          × (smod ctlz a b ≡ (if n == 0 then 0 else word_of s (m % n))))
      × ((addmod ctlz_wide a b k ≡ (if k == 0 then 0 else (a + b) % k))
          × (mulmod ctlz_wide a b k ≡ (if k == 0 then 0 else a * b % k)))
  division_handlers_lem =
      let a_fits = word_of-fits s m m_fits in
      let b_fits = word_of-fits t n n_fits in
      (
        div-umod_lem ctlz counts (word_of s m) (word_of t n) a_fits,
        sdiv_word-smod_lem ctlz counts s t m n m_fits n_fits,
        addmod-mulmod_lem ctlz_wide counts_wide (word_of s m) (word_of t n) k a_fits b_fits k_fits,
      )
