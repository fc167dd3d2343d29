-- ===== src/Instruction/PushData.antt =====
-- `readPushData` and `skipPushData` of libevmjit/Instruction.cpp, on the indices of the code. Both
-- are called with `byte_at code curr` between `PUSH1` and `PUSH32`.
pub mod Laws
use evmjit.Prelude.{ℕ, zero, suc, ◌+◌, ◌-◌, ◌*◌, ◌%◌, ◌^◌, List, ltb, ◌==◌, if◌then◌else◌, bit_or}
use evmjit.Instruction.{byte_at}

-- `pushInst - static_cast<size_t>(Instruction::PUSH1) + 1`.
abbrev pub num_bytes : ℕ → ℕ
num_bytes push_inst = push_inst - 0x60 + 1

-- The loop of `readPushData` over the bytes left: `value <<= 8; value |= b`, 256 bits wide.
unfoldable pub read_loop : ℕ → List ℕ → ℕ → ℕ → ℕ → ℕ × ℕ
read_loop zero code end curr value = (value, curr)
read_loop (suc n) code end curr value =
    let b = if curr == end then 0 else byte_at code curr in
    let curr' = if curr == end then curr else curr + 1 in
    read_loop n code end curr' (bit_or (value * 2 ^ 8 % 2 ^ 256) b)

-- The value read and the updated iterator.
unfoldable pub read_push_data : List ℕ → ℕ → ℕ → ℕ × ℕ
unfolding read_loop
read_push_data code curr end =
    let (value, next) = read_loop (num_bytes (byte_at code curr)) code end (curr + 1) 0 in
    (value, next - 1)

pub skip_loop : ℕ → ℕ → ℕ → ℕ
skip_loop zero end curr = curr
skip_loop (suc n) end curr = if ltb curr end then skip_loop n end (curr + 1) else curr

-- The updated iterator.
unfoldable pub skip_push_data : List ℕ → ℕ → ℕ → ℕ
unfolding skip_loop
skip_push_data code curr end = skip_loop (num_bytes (byte_at code curr)) (end - 1) curr

-- The byte at `i`, 0 outside the code: what the comments of Instruction.h promise.
abbrev pub byte_or_zero : List ℕ → ℕ → ℕ → ℕ
byte_or_zero code end i = if ltb i end then byte_at code i else 0

-- The number that the `n` bytes from `start` on write in base 256, most significant first.
unfoldable pub big_endian : List ℕ → ℕ → ℕ → ℕ → ℕ
big_endian code end start zero = 0
big_endian code end start (suc n) =
    big_endian code end start n * 256 + byte_or_zero code end (start + n)
