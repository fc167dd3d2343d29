-- ===== src/Compiler/Handlers/StaticCalls.antt =====
-- The state changes in the code of a block, and the test for a static call.
use evmjit.Prelude.{ℕ, ◌≤◌, ◌<◌, ◌≡◌, ◌≢◌, Bool, true, false, refl, arith, leb, if◌then◌else◌}
use evmjit.Endianness.{bswap_if_le}
use evmjit.Ext.{CallKinds}
use evmjit.Instruction.{Instruction}
use evmjit.Compiler.Blocks.{BasicBlock}
use evmjit.Compiler.Emit.{Query, Effect, CallArgs, tell}
use evmjit.Compiler.Handlers.{emit_instruction, emit_block}
use evmjit.Compiler.Handlers.Loop.{StaysIn, read_push_data-StaysIn, emit_block-Always}
use evmjit.Compiler.Observer.{Observer, Always}
use evmjit.Compiler.Setting.{Setting, int64_max}

-- What evmc documents: the kinds are different numbers, and EVM_STATICCALL is none of them.
abbrev pub AreDistinct : CallKinds → Type 0
AreDistinct kinds =
    (kinds.call < kinds.delegatecall)
    × ((kinds.delegatecall < kinds.callcode) × (kinds.callcode < kinds.create))

-- A call that creates no contract and, where it is a CALL that transfers value, has been charged all
-- the gas that there can be.
abbrev ChangesNothing : CallKinds → Bool → CallArgs → Type 0
ChangesNothing kinds charged args =
    (args.kind ≢ kinds.create) × (args.kind ≡ kinds.call → args.value ≢ 0 → charged ≡ true)

abbrev MayAsk : CallKinds → Bool → Query → Type 0
MayAsk kinds charged (Query.call args) = ChangesNothing kinds charged args
MayAsk kinds charged _ = Unit

abbrev MayDo : Bool → Effect → Type 0
MayDo charged (Effect.set_storage address index value) = ⊥
MayDo charged (Effect.self_destruct address beneficiary) = ⊥
MayDo charged (Effect.log address idx size topics) = ⊥
MayDo charged _ = Unit

-- The state: whether the instruction has been charged at least the maximum of 63 bits at once.
abbrev charged_after : Bool → Effect → Bool
charged_after charged (Effect.count_inst inst) = false
charged_after charged (Effect.count cost) = if leb int64_max cost then true else charged
charged_after charged _ = charged

abbrev pub changes : CallKinds → Observer Bool
changes kinds = record {
  may_ask = MayAsk kinds;
  asked = λ charged q v. charged;
  may_tell = MayDo;
  told = charged_after;
}

bswap_if_le-zero : (is_le : Bool) → bswap_if_le is_le 32 0 ≡ 0
unfolding bswap_if_le
bswap_if_le-zero true = refl
bswap_if_le-zero false = refl

module _ (s : Setting) (block : BasicBlock) (distinct : AreDistinct s.kinds)
    (static : s.static_call ≡ true) where
  emit_instruction-changes :
      (charged : Bool) (inst : Instruction) (it : ℕ)
      → it < block.end
      → Always
          (changes s.kinds)
          (λ charged' it'. Unit {0} × StaysIn block it it')
          charged
          (tell (Effect.count_inst inst) (emit_instruction s block inst it))
  unfolding emit_instruction
  emit_instruction-changes charged (Instruction.push n) it inside =
      (tt, (tt, read_push_data-StaysIn s.code block it inside))
  emit_instruction-changes charged inst it inside = ground (arith, bswap_if_le-zero s.is_le)

-- In the code of a whole block, compiled for a static call: no path writes to the storage, destroys the
-- contract, logs or creates a contract, and a CALL that transfers value is made only after a charge of
-- 2 ^ 63 - 1 gas, the most that there is.
pub emit_block-changes :
    (s : Setting) (block : BasicBlock)
    → AreDistinct s.kinds
    → s.static_call ≡ true
    → block.begin ≤ block.end
    → Always
        (changes s.kinds)
        (λ charged it. Unit {0} × (it ≡ block.end))
        false
        (emit_block s block)
emit_block-changes s block distinct static ordered =
    emit_block-Always (changes s.kinds) (λ charged. Unit) (λ charged. Unit) s block
      (λ charged inst it _ inside.
        emit_instruction-changes s block distinct static charged inst it inside)
      (λ charged _. (tt, tt)) false tt ordered
