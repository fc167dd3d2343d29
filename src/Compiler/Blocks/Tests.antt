-- ===== src/Compiler/Blocks/Tests.antt =====
-- The blocks of a small code, and the theorems at it.
use evmjit.Prelude.{ℕ, ◌≡◌, refl, List, [], ◌∷◌, some}
use evmjit.Compiler.Blocks.{BasicBlock, create_basic_blocks}
use evmjit.Compiler.Blocks.Shape.{AreBlocks, create_basic_blocks-AreBlocks}
use evmjit.Compiler.Blocks.JumpDests.{jump_table, jumpdests, jump_table-jumpdests}

-- PUSH1 0x5b, JUMP, dead code ADD, JUMPDEST, STOP, dead code PUSH1 0x5b.
abbrev small_code : List ℕ
small_code = 0x60 ∷ 0x5b ∷ 0x56 ∷ 0x01 ∷ 0x5b ∷ 0x00 ∷ 0x60 ∷ 0x5b ∷ []

blocks_result :
    create_basic_blocks small_code
    ≡ some (
        (record { first_instr_idx = 0; begin = 0; end = 3 })
        ∷ (record { first_instr_idx = 4; begin = 4; end = 6 })
        ∷ [])
unfolding create_basic_blocks
blocks_result = refl

jumpdests_result : jumpdests small_code ≡ 4 ∷ []
unfolding jumpdests
jumpdests_result = refl

create_basic_blocks-AreBlocks_example :
    (bs : List BasicBlock) × (create_basic_blocks small_code ≡ some bs) × AreBlocks small_code 0 bs
create_basic_blocks-AreBlocks_example = create_basic_blocks-AreBlocks small_code

jump_table-jumpdests_example :
    (bs : List BasicBlock) × (create_basic_blocks small_code ≡ some bs)
    × (jump_table small_code bs ≡ jumpdests small_code)
jump_table-jumpdests_example = jump_table-jumpdests small_code
