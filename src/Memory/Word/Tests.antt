-- ===== src/Memory/Word/Tests.antt =====
-- Tests and examples for words in memory and in the call data.
use evmjit.Prelude.{◌+◌, ◌≡◌, true, refl, arith, ltb, if◌then◌else◌}
use evmjit.Endianness.{byte_swap, bswap_if_le, extract_element}
use evmjit.Memory.Word.{mload, mstore, calldataload, big_end}
use evmjit.Memory.Word.Laws.{mload-mstore, calldataload-big_end}

-- The last byte of the word stored at 0 is that at 31.
stored_last : mstore true (λ i. 0) 0 0x1234 31 ≡ 0x34
unfolding mstore extract_element bswap_if_le byte_swap
stored_last = refl

mload-mstore_example : mload true (mstore true (λ i. 0) 64 0x1234) 64 ≡ 0x1234
mload-mstore_example = mload-mstore true (λ i. 0) 64 0x1234 (λ i. omega arith) (omega arith)

calldataload-big_end_example :
    calldataload true (λ i. 9) 40 20 ≡ big_end 32 (λ i. if ltb (20 + i) 40 then 9 else 0) 0
calldataload-big_end_example =
    calldataload-big_end true (λ i. 9) 40 20 (λ i. omega arith) (omega arith)
