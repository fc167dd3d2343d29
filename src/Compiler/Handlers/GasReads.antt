-- ===== src/Compiler/Handlers/GasReads.antt =====
-- The reads and writes of the gas counter in the code of a block, and the cost block that is open.
use evmjit.Prelude.{ℕ, ◌≤◌, ◌<◌, ◌≡◌, Bool, true, false, refl, arith}
use evmjit.Instruction.{Instruction}
use evmjit.Compiler.Blocks.{BasicBlock}
use evmjit.Compiler.Emit.{Query, Effect, tell}
use evmjit.Compiler.Handlers.{emit_instruction, emit_block}
use evmjit.Compiler.Handlers.Loop.{StaysIn, read_push_data-StaysIn, log-Always, emit_block-Always}
use evmjit.Compiler.Observer.{Observer, Always}
use evmjit.Compiler.Setting.{Setting}

-- The state: whether instructions have been counted since the last commit.
abbrev MayRead : Bool → Query → Type 0
MayRead counted Query.gas = counted ≡ false
MayRead counted _ = Unit

abbrev MayDo : Bool → Effect → Type 0
MayDo counted (Effect.set_gas gas) = counted ≡ false
MayDo counted _ = Unit

abbrev counted_after : Bool → Effect → Bool
counted_after counted (Effect.count_inst inst) = true
counted_after counted Effect.commit = false
counted_after counted _ = counted

abbrev pub gas_reads : Observer Bool
gas_reads = record {
  may_ask = MayRead;
  asked = λ counted q v. counted;
  may_tell = MayDo;
  told = counted_after;
}

emit_instruction-reads :
    (s : Setting) (block : BasicBlock) (counted : Bool) (inst : Instruction) (it : ℕ)
    → it < block.end
    → Always gas_reads
        (λ counted' it'. Unit {0} × StaysIn block it it')
        counted
        (tell (Effect.count_inst inst) (emit_instruction s block inst it))
unfolding emit_instruction
emit_instruction-reads s block counted (Instruction.push n) it inside =
    (tt, (tt, read_push_data-StaysIn s.code block it inside))
emit_instruction-reads s block counted (Instruction.log n) it inside = (
  tt,
  log-Always gas_reads _ true s block n it (ground arith) λ b m. (tt, (tt, λ ts. ground arith)),
)
emit_instruction-reads s block counted inst it inside = ground arith

-- In the code of a whole block, on every path: the gas counter is read, by GAS, by a call or by CREATE,
-- and set, only where every instruction counted so far has been committed; and the block ends with
-- nothing left to commit.
pub emit_block-reads :
    (s : Setting) (block : BasicBlock)
    → block.begin ≤ block.end
    → Always gas_reads
        (λ counted it. (counted ≡ false) × (it ≡ block.end))
        false
        (emit_block s block)
emit_block-reads s block ordered =
    emit_block-Always gas_reads (λ counted. Unit) (λ counted. counted ≡ false) s block
      (λ counted inst it _ inside. emit_instruction-reads s block counted inst it inside)
      (λ counted _. (tt, refl)) false tt ordered
