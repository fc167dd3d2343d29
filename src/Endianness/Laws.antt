-- ===== src/Endianness/Laws.antt =====
-- What swapping the bytes does to each byte.
use native.Mathlib.Nat.{
  mul_assoc, pow-suc, pow-zero, one-le-pow, mul-le-mul_right, mul-add-div_right, div-div-eq-div-mul,
  div-eq_of_lt,
}
use evmjit.Prelude.{
  ℕ, zero, suc, ◌+◌, ◌-◌, ◌*◌, ◌/◌, ◌%◌, ◌^◌, ◌<◌, ◌≡◌, ◌∙◌, sym, ap, arith, ◌==◌, Bool-cases,
  ==_iff, inl, inr,
}
use evmjit.Prelude.Powers.{pow_add}
use evmjit.Endianness.{byte_swap}

mul_pow : (a n : ℕ) → a * 256 ^ suc n ≡ 256 * (a * 256 ^ n)
mul_pow a n = omega (arith, ap (λ (t : ℕ). a * t) (pow-suc 256 n))

-- A number below the bound, with a further digit.
pub digit-lt : (a n y : ℕ) → a < 256 → y < 256 ^ n → a * 256 ^ n + y < 256 ^ suc n
digit-lt a n y ha hy =
    omega (arith, hy, pow-suc 256 n, mul-le-mul_right {m = a} {n = 255} (256 ^ n) (omega arith))

pub byte_swap-lt : (n x : ℕ) → byte_swap n x < 256 ^ n
unfolding byte_swap
byte_swap-lt zero x = omega (arith, pow-zero 256)
byte_swap-lt (suc n) x =
    digit-lt (x % 256) n (byte_swap n (x / 256)) (omega arith) (byte_swap-lt n (x / 256))

-- The first byte becomes the last.
pub byte_swap-top :
    (n a y : ℕ)
    → a < 256
    → y < 256 ^ n
    → byte_swap (suc n) (a * 256 ^ n + y) ≡ byte_swap n y * 256 + a
unfolding byte_swap
byte_swap-top zero a y ha hy = omega arith
byte_swap-top (suc n) a y ha hy =
    let low : (a * 256 ^ suc n + y) % 256 ≡ y % 256 = omega (arith, mul_pow a n) in
    let high : (a * 256 ^ suc n + y) / 256 ≡ a * 256 ^ n + y / 256 = omega (arith, mul_pow a n) in
    let rest = byte_swap-top n a (y / 256) ha (omega (arith, hy, pow-suc 256 n)) in
    rw (low, high) (omega (arith, rest, mul_pow (y % 256) n))

pub byte_swap-byte_swap : (n x : ℕ) → x < 256 ^ n → byte_swap n (byte_swap n x) ≡ x
unfolding byte_swap
byte_swap-byte_swap zero x h = omega arith
byte_swap-byte_swap (suc n) x h =
    let rest = byte_swap-byte_swap n (x / 256) (omega (arith, h, pow-suc 256 n)) in
    byte_swap-top n (x % 256) (byte_swap n (x / 256)) (omega arith) (byte_swap-lt n (x / 256))
    ∙ omega (arith, rest)

pow_pos : (n : ℕ) → 0 < 256 ^ n
pow_pos n = omega (arith, one-le-pow n 256)

mul_nested : (a p q : ℕ) → a * (p * 256 * q) ≡ a * p * 256 * q
mul_nested a p q = sym (mul_assoc a (p * 256) q) ∙ ap (λ t. t * q) (sym (mul_assoc a p 256))

-- A digit added at the top leaves those below.
digit_below : (n a y i : ℕ) → i < n → (a * 256 ^ n + y) / 256 ^ i % 256 ≡ y / 256 ^ i % 256
digit_below n a y i h =
    let m : ℕ = a * 256 ^ (n - 1 - i) in
    let split : 256 ^ n ≡ 256 ^ (n - 1 - i) * 256 * 256 ^ i =
      let e : n ≡ suc (n - 1 - i) + i = omega arith in
      ap (λ k. 256 ^ k) e
      ∙ pow_add 256 (suc (n - 1 - i)) i
      ∙ ap (λ t. t * 256 ^ i) (pow-suc 256 (n - 1 - i)) in
    let whole : a * 256 ^ n + y ≡ m * 256 * 256 ^ i + y =
      ap (λ t. t + y) (ap (λ t. a * t) split ∙ mul_nested a (256 ^ (n - 1 - i)) (256 ^ i)) in
    ap (λ t. t / 256 ^ i % 256) whole
    ∙ ap (λ t. t % 256) (mul-add-div_right (pow_pos i) (m * 256) y)
    ∙ omega arith

-- Swapping the bytes puts byte `n - 1 - i` at `i`.
pub byte_swap-byte :
    (n x i : ℕ) → i < n → byte_swap n x / 256 ^ i % 256 ≡ x / 256 ^ (n - 1 - i) % 256
unfolding byte_swap
byte_swap-byte zero x i h = absurd (omega arith)
byte_swap-byte (suc n) x i h =
    let y : ℕ = byte_swap n (x / 256) in
    elim (Bool-cases (i == n)) [
      | inl top ↦
          let at : i ≡ n = (==_iff i n).0 top in
          let last : suc n - 1 - n ≡ 0 = omega arith in
          rw (at, last)
            (ap (λ t. t % 256) (mul-add-div_right (pow_pos n) (x % 256) y)
              ∙ ap (λ t. (x % 256 + t) % 256) (div-eq_of_lt (byte_swap-lt n (x / 256)))
              ∙ omega arith)
      | inr inner ↦
          let below : i < n = ground arith in
          let next : suc n - 1 - i ≡ suc (n - 1 - i) = omega arith in
          digit_below n (x % 256) y i below
          ∙ byte_swap-byte n (x / 256) i below
          ∙ ap (λ t. t % 256) (div-div-eq-div-mul x 256 (256 ^ (n - 1 - i)))
          ∙ ap (λ t. x / t % 256) (omega (arith, pow-suc 256 (n - 1 - i)))
          ∙ ap (λ k. x / 256 ^ k % 256) (sym next)
    ]
