-- ===== src/Compiler/Bytes.antt =====
-- The handlers of BYTE and SIGNEXTEND in `Compiler::compileBasicBlock` of libevmjit/Compiler.cpp, as
-- functions of the words that they pop, the first popped first.
pub mod Laws
mod Tests
use evmjit.Prelude.{
  ℕ, ◌+◌, ◌-◌, ◌*◌, ◌/◌, ◌%◌, ◌^◌, Bool, ltb, leb, ◌==◌, if◌then◌else◌, bit_and, bit_or, bit_xor,
}
use evmjit.Endianness.{bswap_if_le, extract_element}
use evmjit.Compiler.Arithmetic.{minus_one}

unfoldable pub byte_word : Bool → ℕ → ℕ → ℕ
unfolding bswap_if_le extract_element
byte_word is_le idx word =
    let value = bswap_if_le is_le 32 word in
    let idx_valid = ltb idx 32 in
    let safe_idx = idx % 2 ^ 5 in
    let byte = extract_element is_le value safe_idx in if idx_valid then byte else 0

unfoldable pub signextend : ℕ → ℕ → ℕ
signextend idx word =
    let k32 = idx % 2 ^ 5 in
    let bitpos = k32 * 8 + 7 in
    let bitval = word / 2 ^ bitpos in
    let bittest = bitval % 2 == 1 in
    let mask = (2 ^ bitpos % 2 ^ 256 + 2 ^ 256 - 1) % 2 ^ 256 in
    let negmask = bit_xor mask minus_one in
    let val1 = bit_or word negmask in
    let val0 = bit_and word mask in
    let k_in_range = leb idx 30 in if k_in_range then (if bittest then val1 else val0) else word
