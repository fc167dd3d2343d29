-- ===== src/Compiler/Jumps.antt =====
-- `Compiler::resolveJumps` of libevmjit/Compiler.cpp. The blocks of the main function are the code
-- blocks, by their number, and the special blocks; a block that `compileBasicBlock` has compiled has a
-- terminator or none.
pub mod Laws
pub mod Table
pub mod Flow
pub mod Tests
use evmjit.Prelude.{
  ℕ, ◌+◌, ◌==◌, ◌&&◌, Bool, true, List, [], ◌∷◌, ◌++◌, Option, none, some, length, if◌then◌else◌,
}
use evmjit.Compiler.Blocks.{BasicBlock, is_jumpdest}
use evmjit.Instruction.{byte_at}

pub data Place : Type 0 where
  code_block : ℕ → Place
  stop_block table_block abort_block exit_block : Place

-- The metadata with the destination: a `ConstantInt`, or another LLVM value.
pub data DestIdx : Type 0 where
  constant : ℕ → DestIdx
  computed : ℕ → DestIdx

-- What JUMP and JUMPI leave behind, with the value of the condition, and an exit of the contract.
pub data Terminator : Type 0 where
  jump : DestIdx → Terminator
  jump_if : ℕ → DestIdx → Terminator
  leave : Terminator

-- A branch with its successors.
pub data Branch : Type 0 where
  goto : Place → Branch
  choose : ℕ → Place → Place → Branch

-- The cases of the jump table, each with the block that it leads to.
unfoldable pub table_cases : List ℕ → ℕ → List BasicBlock → List (ℕ × ℕ)
table_cases code i [] = []
table_cases code i (b ∷ bs) =
    (if is_jumpdest (byte_at code b.begin) then (b.first_instr_idx, i) ∷ [] else [])
    ++ table_cases code (i + 1) bs

-- `findCaseValue`, whose default case leads to the block "Abort".
unfoldable pub find_case : List (ℕ × ℕ) → ℕ → Place
find_case [] dest = Place.abort_block
find_case ((key, i) ∷ cases) dest = if key == dest then Place.code_block i else find_case cases dest

-- The block behind a code block; the block "Stop" is behind the last one.
abbrev pub next_place : ℕ → ℕ → Place
next_place count i = if i + 1 == count then Place.stop_block else Place.code_block (i + 1)

module _ (cases : List (ℕ × ℕ)) where
  -- The first successor of a jump, and what it adds to the PHI node.
  abbrev pub place_of : DestIdx → Place
  place_of (DestIdx.constant dest) = find_case cases dest
  place_of (DestIdx.computed v) = Place.table_block

  abbrev pub incoming_of : ℕ → DestIdx → List (ℕ × ℕ)
  incoming_of i (DestIdx.constant dest) = []
  incoming_of i (DestIdx.computed v) = (v, i) ∷ []

  abbrev pub resolve_one : ℕ → Place → Option Terminator → Branch × List (ℕ × ℕ)
  resolve_one i next none = (Branch.goto next, [])
  resolve_one i next (some Terminator.leave) = (Branch.goto Place.exit_block, [])
  resolve_one i next (some (Terminator.jump d)) = (Branch.goto (place_of d), incoming_of i d)
  resolve_one i next (some (Terminator.jump_if c d)) =
      (Branch.choose c (place_of d) next, incoming_of i d)

  -- The loop over the code blocks, from number `i` on.
  unfoldable pub resolve_from : ℕ → ℕ → List (Option Terminator) → List Branch × List (ℕ × ℕ)
  resolve_from count i [] = ([], [])
  resolve_from count i (t ∷ terms) =
      let (branch, new) = resolve_one i (next_place count i) t in
      let (branches, incoming) = resolve_from count (i + 1) terms in
      (branch ∷ branches, new ++ incoming)

  unfoldable pub resolve_jumps : List (Option Terminator) → List Branch × List (ℕ × ℕ)
  resolve_jumps terms = resolve_from (length terms) 0 terms

-- `hasConstantValue` of the PHI node: the value that all its incoming values are.
abbrev pub all_are : ℕ → List (ℕ × ℕ) → Bool
all_are v [] = true
all_are v ((w, i) ∷ incoming) = (w == v) && all_are v incoming

abbrev pub simplified_input : List (ℕ × ℕ) → Option ℕ
simplified_input [] = none
simplified_input ((v, i) ∷ incoming) = if all_are v incoming then some v else none

-- The value that the jump table gets from a block: the simplified one, or that of the PHI node.
abbrev pub phi_value : List (ℕ × ℕ) → ℕ → Option ℕ
phi_value [] i = none
phi_value ((v, j) ∷ incoming) i = if j == i then some v else phi_value incoming i

abbrev pub table_input : List (ℕ × ℕ) → ℕ → Option ℕ
table_input incoming i = elim (simplified_input incoming) [
  | some v ↦ some v
  | none ↦ phi_value incoming i
]
