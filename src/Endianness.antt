-- ===== src/Endianness.antt =====
-- The byte order of words: libevmjit/Endianness.cpp. `toBE` and `toNative` are both `bswapIfLE`; they
-- swap the bytes on a little-endian host and do nothing on any other.
pub mod Laws
use evmjit.Prelude.{ℕ, zero, suc, ◌+◌, ◌-◌, ◌*◌, ◌/◌, ◌%◌, ◌^◌, Bool, if◌then◌else◌}

-- LLVM's `bswap` of an integer of so many bytes.
unfoldable pub byte_swap : ℕ → ℕ → ℕ
byte_swap zero x = 0
byte_swap (suc n) x = x % 256 * 256 ^ n + byte_swap n (x / 256)

unfoldable pub bswap_if_le : Bool → ℕ → ℕ → ℕ
unfolding byte_swap
bswap_if_le is_little_endian_host n value =
    if is_little_endian_host then byte_swap n value else value

-- `CreateBitCast` of a word to a vector of bytes and `CreateExtractElement`: the elements have the
-- order of the bytes in memory.
unfoldable pub extract_element : Bool → ℕ → ℕ → ℕ
extract_element is_little_endian_host value i =
    value / 256 ^ (if is_little_endian_host then i else 31 - i) % 256
