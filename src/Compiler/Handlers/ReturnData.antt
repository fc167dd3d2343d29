-- ===== src/Compiler/Handlers/ReturnData.antt =====
-- What RETURNDATACOPY charges.
use evmjit.Prelude.{ℕ, ◌+◌, ◌*◌, ◌/◌, ◌^◌, ◌≤◌, ◌<◌, ◌≡◌, leb, arith, if◌then◌else◌}
use evmjit.Gas.Check.{gas_check, spend}
use evmjit.Compiler.Handlers.Data.{copy_no_padding_cost}

-- The cost that RETURNDATACOPY charges. In the return data it is 3 gas for each word begun. Where the range
-- leaves the return data, also where its end is no word, the product for the penalty does not fit 64 bits,
-- and whatever the machine makes of it is charged, so that nothing makes the instruction run out of gas.
-- The gas is less than 2 ^ 63, the size of the return data less than 2 ^ 64, the index a word, and the
-- number of bytes at most 2 ^ 33, as the memory accepts.
pub copy_no_padding_cost_lem :
    (poison gas src_size src_idx req_bytes : ℕ)
    → gas < 2 ^ 63
    → src_size < 2 ^ 64
    → src_idx < 2 ^ 256
    → req_bytes ≤ 2 ^ 33
    → gas_check gas (copy_no_padding_cost poison src_size src_idx req_bytes) ≡ (
        if leb (src_idx + req_bytes) src_size
        then spend gas (3 * ((req_bytes + 31) / 32))
        else gas_check gas poison)
unfolding copy_no_padding_cost gas_check
copy_no_padding_cost_lem poison gas src_size src_idx req_bytes enough size_fits idx_fits req_fits =
    ground arith
