-- ===== src/Compiler/Jumps/Tests.antt =====
-- Tests and examples for the resolution of jumps.
use evmjit.Prelude.{ℕ, zero, suc, ◌≡◌, arith, List, [], ◌∷◌, Option, some, none, refl, get_elem?}
use evmjit.Compiler.Blocks.{BasicBlock, create_basic_blocks, skip_push_data_and_get_next, ends_path}
use evmjit.Instruction.{decode}
use evmjit.Compiler.Jumps.{
  Place, DestIdx, Terminator, Branch, find_case, table_cases, resolve_from, resolve_jumps,
}
use evmjit.Compiler.Jumps.Laws.{taken, enter}
use evmjit.Compiler.Jumps.Flow.{Fits, IsPlaceOf, onward, resolve_jumps-onward}

-- A JUMPI to 7 on value 1, a JUMP to value 2, and a block that runs into the end.
abbrev terms : List (Option Terminator)
terms =
    some (Terminator.jump_if 1 (DestIdx.constant 7))
    ∷ some (Terminator.jump (DestIdx.computed 2))
    ∷ none
    ∷ []

abbrev cases : List (ℕ × ℕ)
cases = (7, 2) ∷ []

resolved :
    (resolve_jumps cases terms).0
    ≡ Branch.choose 1 (Place.code_block 2) (Place.code_block 1)
      ∷ Branch.goto Place.table_block
      ∷ Branch.goto Place.stop_block
      ∷ []
unfolding resolve_jumps resolve_from find_case
resolved = refl

-- JUMPI, and a block of JUMPDEST and STOP.
abbrev pub branching : List ℕ
branching = 0x57 ∷ 0x5b ∷ 0x00 ∷ []

abbrev pub first_block : BasicBlock
first_block = record { first_instr_idx = 0; begin = 0; end = 1 }

abbrev pub second_block : BasicBlock
second_block = record { first_instr_idx = 1; begin = 1; end = 3 }

abbrev pub to_1 : Option Terminator
to_1 = some (Terminator.jump_if 7 (DestIdx.constant 1))

pub branching_blocks : create_basic_blocks branching ≡ some (first_block ∷ second_block ∷ [])
unfolding create_basic_blocks
branching_blocks = refl

pub first_block-Fits : Fits branching first_block to_1
unfolding skip_push_data_and_get_next decode ends_path
first_block-Fits zero straight e falls = refl
first_block-Fits (suc n) straight e falls = absurd (ground arith)

resolve_jumps-onward_example :
    let bs = first_block ∷ second_block ∷ [] in
    let cases = table_cases branching 0 bs in
    let (branches, incoming) = resolve_jumps cases (to_1 ∷ some Terminator.leave ∷ []) in
    (branch : Branch) × (place : Place) × (get_elem? branches 0 ≡ some branch)
    × (enter cases (λ v. 5) incoming 0 (taken (λ v. 5) branch) ≡ some place)
    × IsPlaceOf branching bs (onward branching (λ v. 5) 1 to_1) place
resolve_jumps-onward_example =
    resolve_jumps-onward branching (first_block ∷ second_block ∷ [])
      (to_1 ∷ some Terminator.leave ∷ []) (λ v. 5) 0 first_block to_1 branching_blocks refl refl
      refl first_block-Fits
