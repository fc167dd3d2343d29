-- ===== src/Memory/Require.antt =====
-- The function `mem.require` that `Memory::getRequireFunc` of libevmjit/Memory.cpp emits: it pays for
-- an area of memory and extends the memory to hold it. Of the memory, its size in bytes is modelled.
-- No sum or product leaves 64 bits, since an area that passes the limits takes at most 2 ^ 34 + 32
-- bytes; the difference of the prices is taken only where the size required is the larger one.
use mathlib.Core.Option
use evmjit.Prelude.{
  ℕ, ◌+◌, ◌-◌, ◌*◌, ◌/◌, ◌%◌, ◌^◌, ◌&&◌, Option, some, leb, ◌==◌, bit_and, if◌then◌else◌,
}
use evmjit.Gas.Check.{gas_check}

-- `c_inputMax`.
abbrev pub input_max : ℕ
input_max = 2 ^ 33

-- `blkO` and `blkS`: a word that is small enough as 64 bits, any other as the maximum.
abbrev pub clamp_input : ℕ → ℕ
clamp_input x = if leb x input_max then x % 2 ^ 64 else input_max

-- `sizeReq`, with the mask `uint64_t(-1) << 5`.
abbrev pub size_required : ℕ → ℕ → ℕ
size_required offset size =
    bit_and (clamp_input offset + clamp_input size + 31) ((2 ^ 64 - 1) * 2 ^ 5 % 2 ^ 64)

-- `c1` of `w1`, and `c0` of `w0`: the price of a memory of so many bytes.
abbrev pub price : ℕ → ℕ
price bytes = let w = bytes / 2 ^ 5 in w * 3 + w * w / 2 ^ 9

-- The gas and the size of the memory after the call, or none where it runs out of gas.
unfoldable pub mem_require : ℕ → ℕ → ℕ → ℕ → Option (ℕ × ℕ)
unfolding gas_check
mem_require gas size_cur blk_offset blk_size =
    let size_req = size_required blk_offset blk_size in
    let cost_ok = leb blk_offset input_max && leb blk_size input_max in
    let cost = if cost_ok then price size_req - price size_cur else 2 ^ 63 - 1 in
    if blk_size == 0
    then some (gas, size_cur)
    else if leb size_req size_cur
    then some (gas, size_cur)
    else Option.map (λ g. (g, size_req)) (gas_check gas cost)
