-- ===== src/Gas/Check.antt =====
-- The function `gas.check` that the constructor of `GasMeter` emits. A gas counter and a cost are
-- the bit patterns of `int64_t` values.
use evmjit.Prelude.{
  ℕ, ◌+◌, ◌-◌, ◌%◌, ◌^◌, ◌<◌, ◌≡◌, Option, none, some, ltb, leb, ◌>>=◌, arith, if◌then◌else◌,
}

-- `gas - cost`, in 64 bits. The source marks it `nsw`: it does not leave the signed range where both
-- are at least 0, and every caller hands over such a cost.
abbrev pub gas_updated : ℕ → ℕ → ℕ
gas_updated gas cost = (gas + 2 ^ 64 - cost) % 2 ^ 64

-- The gas left, or none where the function aborts; `gasUpdated >= 0` is a test of the sign bit.
unfoldable pub gas_check : ℕ → ℕ → Option ℕ
gas_check gas cost =
    if ltb (gas_updated gas cost) (2 ^ 63) then some (gas_updated gas cost) else none

-- Gas is a number of 63 bits. Taking a cost from it fails exactly where it is less than the cost.
abbrev pub spend : ℕ → ℕ → Option ℕ
spend gas cost = if leb cost gas then some (gas - cost) else none

-- `gas.check` takes the cost and leaves the rest, or runs out of gas exactly where the cost is more
-- than the gas, for any gas and cost that are not negative.
pub gas_check-spend :
    (gas cost : ℕ) → gas < 2 ^ 63 → cost < 2 ^ 63 → gas_check gas cost ≡ spend gas cost
unfolding gas_check
gas_check-spend gas cost hg hc = ground arith

-- Two costs one after the other are their sum at once.
pub spend-spend : (gas a b : ℕ) → (spend gas a >>= λ g. spend g b) ≡ spend gas (a + b)
spend-spend gas a b = ground arith

pub spend-lt : (gas a m : ℕ) {g : ℕ} → gas < m → spend gas a ≡ some g → g < m
spend-lt gas a m h e = ground arith
