-- ===== src/Memory/Word.antt =====
-- The words of memory: the functions `mload` and `mstore` that `Memory::createFunc` of
-- libevmjit/Memory.cpp emits, and `Ext::calldataload` of libevmjit/Ext.cpp. Bytes are given by a
-- function from the index.
pub mod Laws
mod Tests
use evmjit.Prelude.{ℕ, zero, suc, ◌+◌, ◌-◌, ◌*◌, ◌%◌, ◌^◌, Bool, ltb, leb, ◌&&◌, if◌then◌else◌}
use evmjit.Endianness.{bswap_if_le, extract_element}

-- The number that so many bytes write, the least significant one first, and last.
unfoldable pub little_end : ℕ → (ℕ → ℕ) → ℕ → ℕ
little_end zero data_at p = 0
little_end (suc n) data_at p = data_at (p + n) * 256 ^ n + little_end n data_at p

unfoldable pub big_end : ℕ → (ℕ → ℕ) → ℕ → ℕ
big_end zero data_at p = 0
big_end (suc n) data_at p = big_end n data_at p * 256 + data_at (p + n)

-- `CreateLoad` and `CreateStore` of a word.
abbrev pub load_word : Bool → (ℕ → ℕ) → ℕ → ℕ
load_word is_le data_at p = if is_le then little_end 32 data_at p else big_end 32 data_at p

abbrev pub store_word : Bool → (ℕ → ℕ) → ℕ → ℕ → ℕ → ℕ
store_word is_le data_at p value =
    λ i. if leb p i && ltb i (p + 32) then extract_element is_le value (i - p) else data_at i

unfoldable pub mload : Bool → (ℕ → ℕ) → ℕ → ℕ
mload is_le data_at index = bswap_if_le is_le 32 (load_word is_le data_at (index % 2 ^ 64))

unfoldable pub mstore : Bool → (ℕ → ℕ) → ℕ → ℕ → ℕ → ℕ
mstore is_le data_at index value =
    store_word is_le data_at (index % 2 ^ 64) (bswap_if_le is_le 32 value)

-- The buffer `ret` of 32 bytes after the copy and the zeros. The size is the one of `getCallDataSize`,
-- 64 bits.
unfoldable pub call_data_bytes : (ℕ → ℕ) → ℕ → ℕ → ℕ → ℕ
call_data_bytes data_at call_data_size index =
    let idx_valid = ltb index call_data_size in
    let idx = (if idx_valid then index else call_data_size) % 2 ^ 64 in
    let end = (idx + 32) % 2 ^ 64 in
    let end = if leb end call_data_size then end else call_data_size in
    let copy_size = end - idx in λ i. if ltb i copy_size then data_at (idx + i) else 0

unfoldable pub calldataload : Bool → (ℕ → ℕ) → ℕ → ℕ → ℕ
calldataload is_le data_at call_data_size index =
    bswap_if_le is_le 32 (load_word is_le (call_data_bytes data_at call_data_size index) 0)
