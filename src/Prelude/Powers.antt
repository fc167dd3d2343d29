-- ===== src/Prelude/Powers.antt =====
-- Powers: sums of exponents and growth.
use native.Mathlib.Nat.{
  pow-zero, pow-suc, mul_assoc, mul_comm, mod-add-div', add-mul-mod_self_right,
}
use evmjit.Prelude.{ℕ, zero, suc, ◌+◌, ◌*◌, ◌/◌, ◌%◌, ◌^◌, ◌<◌, ◌≡◌, sym, ap, ◌∙◌, arith}

pub pow_add : (b m n : ℕ) → b ^ (m + n) ≡ b ^ m * b ^ n
pow_add b m zero = let e : m + 0 ≡ m = omega arith in rw (e, pow-zero b) (omega arith)
pow_add b m (suc n) =
    let e : m + suc n ≡ suc (m + n) = omega arith in
    ap (λ k. b ^ k) e
    ∙ pow-suc b (m + n)
    ∙ ap (λ p. p * b) (pow_add b m n)
    ∙ mul_assoc (b ^ m) (b ^ n) b
    ∙ ap (λ p. b ^ m * p) (sym (pow-suc b n))

pub pow_square : (b n : ℕ) → (b * b) ^ n ≡ b ^ (n + n)
pow_square b zero = pow-zero (b * b) ∙ sym (pow-zero b)
pow_square b (suc n) =
    let e : suc n + suc n ≡ suc (suc (n + n)) = omega arith in
    pow-suc (b * b) n
    ∙ ap (λ p. p * (b * b)) (pow_square b n)
    ∙ sym (mul_assoc (b ^ (n + n)) b b)
    ∙ ap (λ p. p * b) (sym (pow-suc b (n + n)))
    ∙ sym (pow-suc b (suc (n + n)))
    ∙ ap (λ k. b ^ k) (sym e)

-- A factor may be reduced first, and the base of a power.
pub mod_mul : (a c m : ℕ) → a % m * c % m ≡ a * c % m
mod_mul a c m =
    let parts : a * c ≡ a % m * c + a / m * c * m = grind (arith, mod-add-div' a m) in
    sym (ap (λ t. t % m) parts ∙ add-mul-mod_self_right (a % m * c) (a / m * c) m)

pub mul_mod : (a c m : ℕ) → a * (c % m) % m ≡ a * c % m
mul_mod a c m =
    ap (λ t. t % m) (mul_comm a (c % m)) ∙ mod_mul c a m ∙ ap (λ t. t % m) (mul_comm c a)

pub pow_mod : (b n m : ℕ) → (b % m) ^ n % m ≡ b ^ n % m
pow_mod b zero m = ap (λ t. t % m) (pow-zero (b % m) ∙ sym (pow-zero b))
pow_mod b (suc n) m =
    ap (λ t. t % m) (pow-suc (b % m) n)
    ∙ mul_mod ((b % m) ^ n) b m
    ∙ sym (mod_mul ((b % m) ^ n) b m)
    ∙ ap (λ t. t * b % m) (pow_mod b n m)
    ∙ mod_mul (b ^ n) b m
    ∙ ap (λ t. t % m) (sym (pow-suc b n))

pub lt-two_pow : (n : ℕ) → n < 2 ^ n
lt-two_pow zero = omega arith
lt-two_pow (suc n) = omega (arith, lt-two_pow n, pow-suc 2 n)
