-- ===== src/Compiler/Handlers/MemoryAreas.antt =====
-- The accesses to memory in the code of a block, and the areas that `mem.require` was asked for.
use evmjit.Prelude.{ℕ, ◌+◌, ◌≤◌, ◌<◌, ◌≡◌, ◌⊎◌, List, [], ◌∷◌, arith}
use evmjit.Instruction.{Instruction}
use evmjit.Compiler.Blocks.{BasicBlock}
use evmjit.Compiler.Emit.{Query, Effect, Output, area, address_slot, tell}
use evmjit.Compiler.Handlers.{emit_instruction, emit_block}
use evmjit.Compiler.Handlers.Loop.{StaysIn, read_push_data-StaysIn, log-Always, emit_block-Always}
use evmjit.Compiler.Observer.{Observer, Always}
use evmjit.Compiler.Setting.{Setting}
use evmjit.Memory.Copy.{bytes_to_copy}
use evmjit.Memory.Require.{input_max}

-- An access of `count` bytes from `p` on lies in an area that `mem.require` has accepted: it accepts
-- an offset and a size up to 2 ^ 33, and any offset with the size 0.
abbrev pub Lies : ℕ → ℕ → ℕ × ℕ → Type 0
Lies p count (offset, size) =
    (size ≡ 0 → count ≡ 0)
    × (offset ≤ input_max → size ≤ input_max → (offset ≤ p) × (p + count ≤ offset + size))

abbrev pub Covered : ℕ → ℕ → List (ℕ × ℕ) → Type 0
Covered p count [] = ⊥
Covered p count (a ∷ areas) = Lies p count a ⊎ Covered p count areas

abbrev pub CoversOutput : Output → List (ℕ × ℕ) → Type 0
CoversOutput (area p count) areas = Covered p count areas
CoversOutput address_slot areas = Unit

abbrev MayAsk : List (ℕ × ℕ) → Query → Type 0
MayAsk areas (Query.mem_word p) = Covered p 32 areas
MayAsk areas (Query.sha3 p count) = Covered p count areas
MayAsk areas (Query.call args) =
    Covered args.in_off args.in_size areas × CoversOutput args.output areas
MayAsk areas _ = Unit

abbrev MayDo : List (ℕ × ℕ) → Effect → Type 0
MayDo areas (Effect.store_word p word) = Covered p 32 areas
MayDo areas (Effect.store_byte p byte) = Covered p 1 areas
MayDo areas (Effect.mem_cpy src idx p count) = Covered p count areas
MayDo areas (Effect.mem_zero p count) = Covered p count areas
MayDo areas (Effect.log address p count topics) = Covered p count areas
MayDo areas (Effect.return_data p count) = Covered p count areas
MayDo areas _ = Unit

-- The state: the areas that the instruction has required.
abbrev areas_after : List (ℕ × ℕ) → Effect → List (ℕ × ℕ)
areas_after areas (Effect.count_inst inst) = []
areas_after areas (Effect.require offset size) = (offset, size) ∷ areas
areas_after areas _ = areas

abbrev pub accesses : Observer (List (ℕ × ℕ))
accesses = record {
  may_ask = MayAsk;
  asked = λ areas q v. areas;
  may_tell = MayDo;
  told = areas_after;
}

module _ (s : Setting) (block : BasicBlock) where
  emit_instruction-accesses :
      (areas : List (ℕ × ℕ)) (inst : Instruction) (it : ℕ)
      → it < block.end
      → Always accesses
          (λ areas' it'. Unit {0} × StaysIn block it it')
          areas
          (tell (Effect.count_inst inst) (emit_instruction s block inst it))
  unfolding emit_instruction bytes_to_copy
  emit_instruction-accesses areas (Instruction.push n) it inside =
      (tt, (tt, read_push_data-StaysIn s.code block it inside))
  emit_instruction-accesses areas (Instruction.log n) it inside = (
    tt,
    log-Always accesses _ [] s block n it (ground arith) λ b m. (tt, (tt, λ ts. ground arith)),
  )
  emit_instruction-accesses areas inst it inside = ground arith

-- Areas with an offset or a size above 2 ^ 33 cover any access here: `mem.require` does not pay for them.
pub emit_block-areas :
    (s : Setting) (block : BasicBlock) (areas : List (ℕ × ℕ))
    → block.begin ≤ block.end
    → Always accesses (λ areas' it. Unit {0} × (it ≡ block.end)) areas (emit_block s block)
emit_block-areas s block areas ordered =
    emit_block-Always accesses (λ areas'. Unit) (λ areas'. Unit) s block
      (λ areas' inst it _ inside. emit_instruction-accesses s block areas' inst it inside)
      (λ areas' _. (tt, tt)) areas tt ordered
