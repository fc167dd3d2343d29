-- ===== src/Arith256/Division.antt =====
-- `createUDivRemFunc` of libevmjit/Arith256.cpp, the division of unsigned words by shifting and
-- subtracting. `width` is that of the type, 256 or 512, and `ctlz` is LLVM's intrinsic
-- `llvm.ctlz`, the number of leading zero bits.
pub mod Laws
pub mod Zeros
use evmjit.Prelude.{ℕ, zero, suc, ◌+◌, ◌-◌, ◌*◌, ◌/◌, ◌%◌, ◌^◌, leb, if◌then◌else◌, bit_or}

module _ (width : ℕ) where
  -- `r1` and `q1`. A subtraction that may wrap is one that the select does not choose.
  abbrev pub next_r : ℕ → ℕ → ℕ
  next_r y r = if leb y r then (r + 2 ^ width - y) % 2 ^ width else r

  abbrev pub next_q : ℕ → ℕ → ℕ → ℕ
  next_q y r q = if leb y r then bit_or q 1 else q

  -- The blocks Loop and Continue, with the phi nodes as arguments: `i.phi`, `y.phi`, `r.phi`,
  -- `q.phi`.
  unfoldable pub udivrem_loop : ℕ → ℕ → ℕ → ℕ → ℕ × ℕ
  udivrem_loop zero y r q = (next_q y r q, next_r y r)
  udivrem_loop (suc i2) y r q = udivrem_loop i2 (y / 2) (next_r y r) (next_q y r q * 2 % 2 ^ width)

  -- The blocks Entry, Main and Return: quotient and remainder.
  unfoldable pub udivrem : (ℕ → ℕ) → ℕ → ℕ → ℕ × ℕ
  unfolding udivrem_loop
  udivrem ctlz x y =
      if leb y x
      then (let i0 = (ctlz y + 2 ^ width - ctlz x) % 2 ^ width in
          udivrem_loop i0 (y * 2 ^ i0 % 2 ^ width) x 0)
      else (0, x)
