-- ===== src/Compiler/Jumps/Table.antt =====
-- The jump table against the blocks of the code.
use evmjit.Prelude.{
  ℕ, suc, ◌+◌, ◌≡◌, ◌==◌, ◌||◌, Bool, true, false, List, [], ◌∷◌, some, refl, ap, get_elem?, arith,
  Bool-cases, inl, inr, ==_iff,
}
use evmjit.Compiler.Blocks.{BasicBlock, create_basic_blocks, is_jumpdest}
use evmjit.Compiler.Blocks.JumpDests.{jump_table, jumpdests, jump_table-jumpdests}
use evmjit.Compiler.Jumps.{Place, table_cases, find_case}
use evmjit.Instruction.{byte_at}

abbrev pub contains : List ℕ → ℕ → Bool
contains [] dest = false
contains (d ∷ dests) dest = (d == dest) || contains dests dest

-- The block with the number `i + k` starts at the destination.
pub record Leads (bs : List BasicBlock) (i dest : ℕ) (place : Place) : Type 0 where
  pub number : ℕ
  pub block : BasicBlock
  pub there : place ≡ Place.code_block (i + number)
  pub has : get_elem? bs number ≡ some block
  pub starts : block.first_instr_idx ≡ dest

-- A destination of the table leads to its block, any other to "Abort".
abbrev pub Found : List BasicBlock → ℕ → ℕ → Bool → Place → Type 0
Found bs i dest true place = Leads bs i dest place
Found bs i dest false place = place ≡ Place.abort_block

behind :
    (b : BasicBlock) (bs : List BasicBlock) (i dest : ℕ) (is_dest : Bool) (place : Place)
    → Found bs (i + 1) dest is_dest place
    → Found (b ∷ bs) i dest is_dest place
behind b bs i dest true place found =
    let e : i + 1 + found.number ≡ i + suc found.number = omega arith in
    record {
      number = suc found.number;
      block = found.block;
      there = rw⁻¹ e found.there;
      has = found.has;
      starts = found.starts;
    }
behind b bs i dest false place found = found

find_case-Found :
    (code : List ℕ) (i : ℕ) (bs : List BasicBlock) (dest : ℕ)
    → Found bs i dest (contains (jump_table code bs) dest) (find_case (table_cases code i bs) dest)
unfolding jump_table table_cases find_case
find_case-Found code i [] dest = refl
find_case-Found code i (b ∷ bs) dest = elim (Bool-cases (is_jumpdest (byte_at code b.begin))) [
  | inl starts ↦ elim (Bool-cases (b.first_instr_idx == dest)) [
    | inl same ↦
        let here : i ≡ i + 0 = omega arith in
        rw (starts, same)
          (record {
            number = 0;
            block = b;
            there = ap Place.code_block here;
            has = refl;
            starts = (==_iff b.first_instr_idx dest).0 same;
          })
    | inr other ↦ rw (starts, other) (behind b bs i dest _ _ (find_case-Found code (i + 1) bs dest))
  ]
  | inr plain ↦ rw plain (behind b bs i dest _ _ (find_case-Found code (i + 1) bs dest))
]

-- For the blocks that `createBasicBlocks` cuts a code into: the jump table leads a jump to a valid
-- destination of the code to the block that starts there, and any other jump to the block "Abort".
pub find_case-jumpdests :
    (code : List ℕ)
    → (bs : List BasicBlock) × (create_basic_blocks code ≡ some bs)
      × ((dest : ℕ)
          → Found bs 0 dest
              (contains (jumpdests code) dest)
              (find_case (table_cases code 0 bs) dest))
find_case-jumpdests code =
    let (bs, created, same) = jump_table-jumpdests code in
    (bs, created, λ dest. rw⁻¹ same (find_case-Found code 0 bs dest))
