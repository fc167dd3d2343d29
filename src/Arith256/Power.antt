-- ===== src/Arith256/Power.antt =====
-- `Arith256::exp` and `getExpFunc` of libevmjit/Arith256.cpp: powers of words by squaring. The
-- emitted function and the loop on constants compute alike.
use native.Mathlib.Nat.{pow-zero, pow-suc, pow-succ', mul_assoc}
use evmjit.Prelude.{
  ℕ, zero, suc, ◌+◌, ◌*◌, ◌/◌, ◌%◌, ◌^◌, ◌<◌, ◌≡◌, sym, ap, ◌∙◌, inl, inr, Option, none, some, Bool,
  not, ◌==◌, bit_and, Bool-cases, arith, if◌then◌else◌,
}
use evmjit.Prelude.Bits.{bit_and_ones}
use evmjit.Prelude.Powers.{pow_square, mod_mul, mul_mod, pow_mod}

abbrev pub is_odd : ℕ → Bool
is_odd e = not (bit_and e 1 == 0)

-- The blocks LoopHeader to Continue, with the phi nodes `r`, `b` and `e` as arguments; none where the
-- fuel runs out.
unfoldable pub exp_loop : ℕ → ℕ → ℕ → ℕ → Option ℕ
exp_loop zero r b e = none
exp_loop (suc fuel) r b e =
    let r1 = if is_odd e then r * b % 2 ^ 256 else r in
    let rest = exp_loop fuel r1 (b * b % 2 ^ 256) (e / 2) in if not (e == 0) then rest else some r

-- A word has 256 bits, and each round drops one: 257 rounds are enough.
unfoldable pub exp : ℕ → ℕ → Option ℕ
unfolding exp_loop
exp base exponent = exp_loop 257 1 base exponent

-- One round on a power.
even_round : (r b h w : ℕ) → r * (b * b % w) ^ h % w ≡ r * b ^ (h + h) % w
even_round r b h w =
    sym (mul_mod r ((b * b % w) ^ h) w)
    ∙ ap (λ t. r * t % w) (pow_mod (b * b) h w ∙ ap (λ t. t % w) (pow_square b h))
    ∙ mul_mod r (b ^ (h + h)) w

odd_round : (r b h w : ℕ) → r * b % w * (b * b % w) ^ h % w ≡ r * b ^ suc (h + h) % w
odd_round r b h w =
    mod_mul (r * b) ((b * b % w) ^ h) w
    ∙ even_round (r * b) b h w
    ∙ ap (λ t. t % w) (mul_assoc r b (b ^ (h + h)) ∙ ap (λ t. r * t) (sym (pow-succ' b (h + h))))

exp_done : (r b : ℕ) → r < 2 ^ 256 → r * b ^ 0 % 2 ^ 256 ≡ r
exp_done r b h = rw (pow-zero b) (omega arith)

is_odd_lem : (e : ℕ) → is_odd e ≡ not (e % 2 == 0)
is_odd_lem e = ap (λ t. not (t == 0)) (bit_and_ones 1 e)

-- A step from half the exponent.
halving :
    (r b e : ℕ)
    → (if is_odd e then r * b % 2 ^ 256 else r) * (b * b % 2 ^ 256) ^ (e / 2) % 2 ^ 256
      ≡ r * b ^ e % 2 ^ 256
halving r b e = rw (is_odd_lem e) (elim (Bool-cases (e % 2 == 0)) [
  | inl even ↦
      let parts : e / 2 + e / 2 ≡ e = ground arith in
      rw even (even_round r b (e / 2) (2 ^ 256) ∙ ap (λ k. r * b ^ k % 2 ^ 256) parts)
  | inr odd ↦
      let parts : suc (e / 2 + e / 2) ≡ e = ground arith in
      rw odd (odd_round r b (e / 2) (2 ^ 256) ∙ ap (λ k. r * b ^ k % 2 ^ 256) parts)
])

exp_loop_lem :
    (n r b e : ℕ) → e < 2 ^ n → r < 2 ^ 256 → exp_loop (suc n) r b e ≡ some (r * b ^ e % 2 ^ 256)
unfolding exp_loop
exp_loop_lem zero r b e fits small =
    let nothing : e ≡ 0 = omega arith in rw (nothing, exp_done r b small)
exp_loop_lem (suc n) r b e fits small = elim (Bool-cases (e == 0)) [
  | inl nothing ↦
      let is_zero : e ≡ 0 = ground arith in
      rw nothing (ap some (sym (exp_done r b small) ∙ ap (λ k. r * b ^ k % 2 ^ 256) (sym is_zero)))
  | inr something ↦
      let r1 : ℕ = if is_odd e then r * b % 2 ^ 256 else r in
      let small' : r1 < 2 ^ 256 = ground (arith, small) in
      rw something (
        exp_loop_lem n r1 (b * b % 2 ^ 256) (e / 2) (omega (arith, fits, pow-suc 2 n)) small'
        ∙ ap some (halving r b e))
]

-- `exp` returns, for any exponent of 256 bits, and yields the power reduced to 256 bits, 0 ^ 0 being 1.
pub exp_lem :
    (base exponent : ℕ) → exponent < 2 ^ 256 → exp base exponent ≡ some (base ^ exponent % 2 ^ 256)
unfolding exp
exp_lem base exponent h =
    exp_loop_lem 256 1 base exponent h (omega arith) ∙ ap (λ t. some (t % 2 ^ 256)) (omega arith)
