-- ===== src/Memory/Tests.antt =====
-- `mem.require` at concrete areas.
use evmjit.Prelude.{◌+◌, ◌-◌, ◌^◌, ◌≡◌, refl, some, arith}
use evmjit.Array.{mem_set}
use evmjit.Gas.Check.{gas_check}
use evmjit.Gas.Dynamic.{copy_cost}
use evmjit.Memory.Copy.{copied, copy_bytes, after_copy, copy_bytes_lem}
use evmjit.Memory.Require.{mem_require}
use evmjit.Memory.Expansion.{expand, mem_require-expand}

grows : mem_require 1000 32 30 40 ≡ some (994, 96)
unfolding mem_require
grows = refl

mem_require-expand_example : mem_require 1000 32 30 40 ≡ expand 1000 32 30 40
mem_require-expand_example = mem_require-expand 1000 32 30 40 refl (omega arith)

-- With the most gas there can be, the penalty is paid, and the memory grows to the clamped size only.
most_gas : mem_require (2 ^ 63 - 1) 0 (2 ^ 200) 1 ≡ some (0, 2 ^ 33 + 32)
unfolding mem_require
most_gas = refl

-- Three bytes of a source of five, from index 3 on: two bytes and a zero, half of them behind the memory.
copies :
    copy_bytes 0 100 64 (λ k. 9) (λ k. k + 1) 5 3 62 3
    ≡ some (94, 96, copied (λ k. k + 1) 5 3 62 3 (mem_set (λ k. 9) 64 0 32))
unfolding copy_bytes mem_require copy_cost gas_check
copies = refl

copy_bytes_lem_example :
    copied (λ k. k + 1) 5 3 62 3 (mem_set (λ k. 9) 64 0 32) 64
    ≡ after_copy (λ k. k + 1) (λ k. 9) 5 3 62 3 64 96 64
copy_bytes_lem_example =
    copy_bytes_lem 0 100 64 (λ k. 9) (λ k. k + 1) 5 3 62 3 64 refl (omega arith) (omega arith)
      copies
