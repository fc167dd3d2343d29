-- ===== src/Compiler/Blocks.antt =====
-- `Compiler::createBasicBlocks` of libevmjit/Compiler.cpp: the code is cut into basic blocks, and
-- what no path can reach between a block that ends all paths and the next JUMPDEST is dropped.
pub mod Walk
pub mod Shape
pub mod Adjacent
pub mod JumpDests
pub mod Tests
use evmjit.Prelude.{
  ℕ, zero, suc, ◌+◌, ◌-◌, min, ◌&&◌, ◌||◌, not, Bool, true, false, List, [], ◌∷◌, Option, none,
  some, length, leb, ◌==◌, if◌then◌else◌,
}
use evmjit.Instruction.{Instruction, decode, byte_at}
use mathlib.Core.Option

-- The record part of `class BasicBlock`: the indices of the first instruction, of the beginning and
-- of the end. The iterators are indices into the code.
pub record BasicBlock : Type 0 where
  pub first_instr_idx : ℕ
  pub begin : ℕ
  pub end : ℕ

-- The lambda `skipPushDataAndGetNext`.
unfoldable pub skip_push_data_and_get_next : List ℕ → ℕ → ℕ
skip_push_data_and_get_next code curr =
    let b = byte_at code curr in
    if leb 0x60 b && leb b 0x7f
    then curr + (1 + min (b - 0x60 + 1) (length code - curr - 1))
    else curr + 1

abbrev pub is_jumpdest : ℕ → Bool
is_jumpdest b = b == 0x5b

-- The cases of the switch that set `isDead`, and those that set `isEnd`.
unfoldable pub ends_path : Instruction → Bool
ends_path Instruction.jump = true
ends_path Instruction.return = true
ends_path Instruction.revert = true
ends_path Instruction.stop = true
ends_path Instruction.suicide = true
ends_path _ = false

unfoldable pub ends_block : Instruction → Bool
ends_block Instruction.jumpi = true
ends_block i = ends_path i

-- The variables of the loop that one round hands to the next, but for the iterator.
pub record Scan : Type 0 where
  pub is_dead : Bool
  pub begin : ℕ

-- `begin` after the test of `isDead`.
abbrev pub begin_at : Scan → ℕ → ℕ
begin_at s curr = if s.is_dead then curr else s.begin

-- The final value of `isEnd` in a round.
abbrev pub is_end : List ℕ → ℕ → ℕ → Bool
is_end code curr next =
    ends_block (decode (byte_at code curr))
    || (next == length code || is_jumpdest (byte_at code next))

-- The body of the loop: the variables after it, and the block that it adds, if any.
unfoldable pub round : List ℕ → Scan → ℕ → ℕ → Scan × Option BasicBlock
round code s curr next =
    let begin = begin_at s curr in
    let dead = ends_path (decode (byte_at code curr)) in
    let added : BasicBlock = record { first_instr_idx = begin; begin = begin; end = next } in
    if s.is_dead && not (is_jumpdest (byte_at code curr))
    then (s, none)
    else if is_end code curr next
    then (record { is_dead = dead; begin = next }, some added)
    else (record { is_dead = dead; begin = begin }, none)

abbrev pub emplace : Option BasicBlock → List BasicBlock → List BasicBlock
emplace none blocks = blocks
emplace (some b) blocks = b ∷ blocks

-- The loop from `curr` on, on fuel: the blocks that it adds.
pub scan_loop : ℕ → List ℕ → Scan → ℕ → Option (List BasicBlock)
scan_loop zero code s curr = none
scan_loop (suc fuel) code s curr =
    let next = skip_push_data_and_get_next code curr in
    let (s', added) = round code s curr next in
    let rest = scan_loop fuel code s' next in
    if curr == length code then some [] else Option.map (emplace added) rest

-- A round passes at least one byte, so the fuel is the number of bytes and one more.
unfoldable pub create_basic_blocks : List ℕ → Option (List BasicBlock)
unfolding scan_loop round skip_push_data_and_get_next ends_block ends_path decode
create_basic_blocks code =
    scan_loop (length code + 1) code (record { is_dead = false; begin = 0 }) 0
