-- ===== src/Compiler/Arithmetic.antt =====
-- The handlers of the arithmetic and comparison instructions in `Compiler::compileBasicBlock` of
-- libevmjit/Compiler.cpp, as functions of the words that they pop, the first popped first, into the
-- word that they push. `add`, `sub`, `mul`, `icmp` and the bitwise instructions are LLVM's, on words
-- of 256 bits; `udiv`, `sdiv`, `urem` and `srem` are what `LowerEVMPass` of libevmjit/Optimizer.cpp
-- puts in their place, the functions of `Arith256`.
pub mod Laws
pub mod Tests
use evmjit.Prelude.{
  ℕ, ◌+◌, ◌-◌, ◌*◌, ◌%◌, ◌^◌, Bool, ltb, ◌==◌, if◌then◌else◌, bit_and, bit_or, bit_xor,
}
use evmjit.Arith256.Signed.{negate, udiv, urem, sdiv, srem}

-- `CreateZExt` of a bit.
abbrev pub zext : Bool → ℕ
zext b = if b then 1 else 0

-- A signed comparison is an unsigned one with the sign bits flipped.
abbrev pub flip_sign : ℕ → ℕ
flip_sign x = (x + 2 ^ 255) % 2 ^ 256

abbrev pub minus_one : ℕ
minus_one = 2 ^ 256 - 1

unfoldable pub add : ℕ → ℕ → ℕ
add lhs rhs = (lhs + rhs) % 2 ^ 256

unfoldable pub sub : ℕ → ℕ → ℕ
sub lhs rhs = (lhs + 2 ^ 256 - rhs) % 2 ^ 256

unfoldable pub mul : ℕ → ℕ → ℕ
mul lhs rhs = lhs * rhs % 2 ^ 256

unfoldable pub not_word : ℕ → ℕ
not_word value = bit_xor value minus_one

unfoldable pub lt : ℕ → ℕ → ℕ
lt lhs rhs = zext (ltb lhs rhs)

unfoldable pub gt : ℕ → ℕ → ℕ
gt lhs rhs = zext (ltb rhs lhs)

unfoldable pub slt : ℕ → ℕ → ℕ
slt lhs rhs = zext (ltb (flip_sign lhs) (flip_sign rhs))

unfoldable pub sgt : ℕ → ℕ → ℕ
sgt lhs rhs = zext (ltb (flip_sign rhs) (flip_sign lhs))

unfoldable pub eq : ℕ → ℕ → ℕ
eq lhs rhs = zext (lhs == rhs)

unfoldable pub iszero : ℕ → ℕ
iszero top = zext (top == 0)

unfoldable pub and_word : ℕ → ℕ → ℕ
and_word lhs rhs = bit_and lhs rhs

unfoldable pub or_word : ℕ → ℕ → ℕ
or_word lhs rhs = bit_or lhs rhs

unfoldable pub xor_word : ℕ → ℕ → ℕ
xor_word lhs rhs = bit_xor lhs rhs

module _ (ctlz : ℕ → ℕ) where
  unfoldable pub div : ℕ → ℕ → ℕ
  div d n =
      let div_by_zero = n == 0 in
      let n = if div_by_zero then 1 else n in let r = udiv ctlz d n in if div_by_zero then 0 else r

  unfoldable pub sdiv_word : ℕ → ℕ → ℕ
  sdiv_word d n =
      let div_by_zero = n == 0 in
      let div_by_minus_one = n == minus_one in
      let n = if div_by_zero then 1 else n in
      let r = sdiv ctlz d n in
      let r = if div_by_zero then 0 else r in
      let d_neg = negate d in if div_by_minus_one then d_neg else r

  unfoldable pub umod : ℕ → ℕ → ℕ
  umod d n =
      let div_by_zero = n == 0 in
      let n = if div_by_zero then 1 else n in
      let r = urem ctlz 256 d n in if div_by_zero then 0 else r

  unfoldable pub smod : ℕ → ℕ → ℕ
  smod d n =
      let div_by_zero = n == 0 in
      let div_by_minus_one = n == minus_one in
      let n = if div_by_zero then 1 else n in
      let r = srem ctlz d n in
      let r = if div_by_zero then 0 else r in if div_by_minus_one then 0 else r

-- `ctlz` is that of 512 bits. A divisor of 0 reaches the division; what it yields is not selected.
module _ (ctlz : ℕ → ℕ) where
  unfoldable pub addmod : ℕ → ℕ → ℕ → ℕ
  addmod a b m =
      let div_by_zero = m == 0 in
      let s = a + b in
      let s = urem ctlz 512 s m in let s = s % 2 ^ 256 in if div_by_zero then 0 else s

  unfoldable pub mulmod : ℕ → ℕ → ℕ → ℕ
  mulmod a b m =
      let div_by_zero = m == 0 in
      let p = a * b in
      let p = urem ctlz 512 p m in let p = p % 2 ^ 256 in if div_by_zero then 0 else p
