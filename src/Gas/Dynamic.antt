-- ===== src/Gas/Dynamic.antt =====
-- The costs that depend on values known when the code runs: `count` of a value and its callers
-- `countExp`, `countSStore`, `countLogData`, `countSha3Data` and `countCopy` of
-- libevmjit/GasMeter.cpp. A cost that is a word is clamped to `Constant::gasMax` of
-- libevmjit/Type.cpp.
use native.Mathlib.Nat.{pow-suc, pow-zero, pow-le-pow_right}
use evmjit.Prelude.{
  ℕ, zero, suc, ◌+◌, ◌-◌, ◌*◌, ◌/◌, ◌%◌, ◌^◌, ◌≤◌, ◌<◌, ◌≡◌, ◌⊎◌, inl, inr, refl, ap, ltb, leb,
  ◌==◌, not, ◌&&◌, arith, Bool-cases, leb→le, leb→lt, if◌then◌else◌,
}
use evmjit.Prelude.Powers.{pow_add}
use evmjit.Gas.Schedule.{Revisions, jit_schedule}
use evmjit.Gas.Check.{gas_check, spend}
use evmjit.Arith256.Division.Laws.{CountsZeros}
open jit_schedule use {
  exp_byte_gas, sstore_set_gas, sstore_reset_gas, log_data_gas, sha3_word_gas, copy_gas,
}

abbrev pub gas_max : ℕ
gas_max = 2 ^ 63 - 1

-- The first half of `count` of a value: the cost of 64 bits of a cost that is a word.
unfoldable pub clamp_cost : ℕ → ℕ
clamp_cost cost = if ltb gas_max cost then gas_max else cost % 2 ^ 64

-- The cost that `countExp` counts. `ctlz` is LLVM's intrinsic, also defined at 0.
unfoldable pub exp_cost : Revisions → ℕ → (ℕ → ℕ) → ℕ → ℕ
exp_cost evmc rev ctlz exponent =
    let lz = ctlz exponent % 2 ^ 64 in
    let sig_bits = (256 + 2 ^ 64 - lz) % 2 ^ 64 in
    let sig_bytes = (sig_bits + 7) % 2 ^ 64 / 8 in
    let exponent_byte_cost = if leb evmc.spurious_dragon rev then 50 else exp_byte_gas in
    sig_bytes * exponent_byte_cost

unfoldable pub sstore_cost : ℕ → ℕ → ℕ
sstore_cost old_value new_value =
    let is_insert = (old_value == 0) && not (new_value == 0) in
    if is_insert then sstore_set_gas else sstore_reset_gas

unfoldable pub log_data_cost : ℕ → ℕ
log_data_cost data_length = data_length * log_data_gas % 2 ^ 256

unfoldable pub sha3_data_cost : ℕ → ℕ
sha3_data_cost data_length =
    let data_length64 = data_length % 2 ^ 64 in
    let words64 = (data_length64 + 31) % 2 ^ 64 / 32 in sha3_word_gas * words64 % 2 ^ 64

-- The product is `nuw`: where it does not fit, it is `poison`, any number that the machine makes of it.
unfoldable pub copy_cost : ℕ → ℕ → ℕ
copy_cost poison copy_words =
    let cost = copy_words * copy_gas in if ltb cost (2 ^ 64) then cost else poison

pow_256 : (n : ℕ) → 256 ^ n ≡ 2 ^ (8 * n)
pow_256 zero = pow-zero 256
pow_256 (suc n) =
    let e : 8 + 8 * n ≡ 8 * suc n = omega arith in
    omega (arith, pow-suc 256 n, pow_256 n, pow_add 2 8 (8 * n), ap (λ k. 2 ^ k) e)

-- The number of bytes that a word takes.
abbrev pub TakesBytes : ℕ → ℕ → Type 0
TakesBytes x n = (x < 256 ^ n) × ((n ≡ 0) ⊎ (256 ^ (n - 1) ≤ x))

-- `(256 - lz + 7) / 8` bytes.
bytes_of_bits :
    (x lz : ℕ) → lz < 256 → 2 ^ (255 - lz) ≤ x → x < 2 ^ (256 - lz) → TakesBytes x ((263 - lz) / 8)
bytes_of_bits x lz h from to =
    let n : ℕ = (263 - lz) / 8 in
    (
      omega (
        arith,
        to,
        pow_256 n,
        pow-le-pow_right {n = 2} (omega arith) {i = 256 - lz} {j = 8 * n} (omega arith),
      ),
      inr (
          omega (
            arith,
            from,
            pow_256 (n - 1),
            pow-le-pow_right {n = 2} (omega arith) {i = 8 * (n - 1)} {j = 255 - lz}
                (omega (arith, h)),
          )),
    )

-- EXP counts 50 gas, or 10 before Spurious Dragon, for each byte that the exponent takes, a word; the
-- exponent 0 takes none.
pub exp_cost-TakesBytes :
    (evmc : Revisions) (rev : ℕ) (ctlz : ℕ → ℕ) (exponent : ℕ)
    → CountsZeros 256 ctlz
    → ctlz 0 ≡ 256
    → exponent < 2 ^ 256
    → (n : ℕ) × TakesBytes exponent n
      × (exp_cost evmc rev ctlz exponent ≡ n * (if leb evmc.spurious_dragon rev then 50 else 10))
unfolding exp_cost
exp_cost-TakesBytes evmc rev ctlz exponent counts at_zero fits =
    elim (Bool-cases (leb exponent 0)) [
      | inl nothing ↦
          let is_zero : exponent ≡ 0 = omega (arith, leb→le exponent 0 nothing) in
          (0, rw is_zero (omega arith, inl refl), rw (is_zero, at_zero) refl)
      | inr something ↦
          let (lz_lt, from, to) = counts exponent (leb→lt exponent 0 something) fits in
          let lz : ℕ = ctlz exponent in
          let bytes : ((256 + 2 ^ 64 - lz % 2 ^ 64) % 2 ^ 64 + 7) % 2 ^ 64 / 8 ≡ (263 - lz) / 8 =
            omega (arith, lz_lt) in
          ((263 - lz) / 8, bytes_of_bits exponent lz lz_lt from to, rw bytes refl)
    ]

-- The data of a log, of any length whose cost fits a word: the check takes 8 gas for each byte, and
-- fails where there is less, also where that is more than 64 bits hold.
pub log_data_cost-spend :
    (gas data_length : ℕ)
    → gas < 2 ^ 63 - 1
    → data_length * 8 < 2 ^ 256
    → gas_check gas (clamp_cost (log_data_cost data_length)) ≡ spend gas (data_length * 8)
unfolding log_data_cost clamp_cost gas_check
log_data_cost-spend gas data_length small fits = ground arith
