-- ===== src/Compiler/Handlers/CalleeGas.antt =====
-- The gas that the calls in the code of a block hand to their callees (Ext.call, Compiler.cpp: CALL).
use evmjit.Prelude.{
  ℕ, ◌+◌, ◌%◌, ◌^◌, ◌≤◌, ◌<◌, ◌≡◌, ◌⊎◌, inl, inr, arith, ◌==◌, Bool-cases, if◌then◌else◌,
}
use evmjit.Instruction.{Instruction}
use evmjit.Compiler.Blocks.{BasicBlock}
use evmjit.Compiler.Emit.{done, pushing, Effect, tell}
use evmjit.Ext
use evmjit.Compiler.Handlers.{emit_instruction, emit_block}
use evmjit.Compiler.Handlers.Calls.{limit_gas, is_invalid_call}
use evmjit.Compiler.Handlers.Loop.{StaysIn, read_push_data-StaysIn, log-Always, emit_block-Always}
use evmjit.Compiler.Handlers.StaticCalls.{AreDistinct}
use evmjit.Compiler.Handlers.Funding.{Seen, funding, limit_gas-funding}
use evmjit.Compiler.Observer.{Always}
use evmjit.Compiler.Setting.{Setting, give_back, call_gas_left, call_succeeded}
use evmjit.Compiler.Arithmetic.{zext}
use evmjit.Gas.Schedule.{jit_schedule}
use evmjit.Gas.Dynamic.{clamp_cost}
open jit_schedule use {call_stipend}

module _ (s : Setting) (block : BasicBlock) (distinct : AreDistinct s.kinds) where
  -- The code of a call after the charges for the transfer.
  tail-funding :
      (it : ℕ) (inside : it < block.end) (seen : Seen)
      (kind call_gas addr value in_off in_size out_off out_size : ℕ)
      → kind < s.kinds.create ⊎ s.kinds.create < kind
      → Always
          (funding s)
          (λ seen' it'. Unit {0} × StaysIn block it it')
          seen
          (limit_gas s call_gas λ limited. tell (Effect.count (clamp_cost limited)) (
            Ext.call s.is_le s.kinds kind
              (limited % 2 ^ 64 + (if value == 0 then 0 else call_stipend))
              addr
              value
              in_off
              in_size
              out_off
              out_size
              λ r. give_back (call_gas_left r) (pushing (zext (call_succeeded r)) (done it))))
  tail-funding it inside seen kind call_gas addr value in_off in_size out_off out_size other =
      limit_gas-funding s _ _ (λ x r. (tt, λ left. (tt, (tt, (omega arith, inside))))) seen kind
        call_gas _ addr value in_off in_size out_off out_size other (ground arith)

  emit_instruction-funding :
      (seen : Seen) (inst : Instruction) (it : ℕ)
      → it < block.end
      → Always
          (funding s)
          (λ seen' it'. Unit {0} × StaysIn block it it')
          seen
          (tell (Effect.count_inst inst) (emit_instruction s block inst it))
  unfolding emit_instruction
  emit_instruction-funding seen (Instruction.push n) it inside =
      (tt, (tt, read_push_data-StaysIn s.code block it inside))
  emit_instruction-funding seen (Instruction.log n) it inside = (
    tt,
    log-Always (funding s) _ seen s block n it (ground arith) λ b m. (tt, (tt, λ ts. ground arith)),
  )
  emit_instruction-funding seen Instruction.callcode it inside = (
    tt,
    λ call_gas addr value in_off in_size out_off out_size. (
      tt,
      (
        tt,
        (
          tt,
          (
            tt,
            tail-funding it inside _ _ call_gas addr value in_off in_size out_off out_size
                (inl (omega arith)),
          ),
        ),
      ),
    ),
  )
  emit_instruction-funding seen Instruction.delegatecall it inside =
      elim (Bool-cases (is_invalid_call s Instruction.delegatecall)) [
        | inl invalid ↦ rw invalid (ground arith)
        | inr valid ↦ rw valid (
          tt,
          λ call_gas addr in_off in_size out_off out_size. (
            tt,
            (
              tt,
              (
                tt,
                (
                  tt,
                  tail-funding it inside _ _ call_gas addr 0 in_off in_size out_off out_size
                      (inl (omega arith)),
                ),
              ),
            ),
          ),
        )
      ]
  emit_instruction-funding seen Instruction.staticcall it inside =
      elim (Bool-cases (is_invalid_call s Instruction.staticcall)) [
        | inl invalid ↦ rw invalid (ground arith)
        | inr valid ↦ rw valid (
          tt,
          λ call_gas addr in_off in_size out_off out_size. (
            tt,
            (
              tt,
              (
                tt,
                (
                  tt,
                  tail-funding it inside _ _ call_gas addr 0 in_off in_size out_off out_size
                      (inr (omega arith)),
                ),
              ),
            ),
          ),
        )
      ]
  emit_instruction-funding seen Instruction.call it inside = (
    tt,
    λ call_gas addr value in_off in_size out_off out_size. (
      tt,
      (
        tt,
        (
          tt,
          (
            tt,
            (
              tt,
              λ found. (
                tt,
                tail-funding it inside _ _ call_gas addr value in_off in_size out_off out_size
                    (inl (omega arith)),
              ),
            ),
          ),
        ),
      ),
    ),
  )
  emit_instruction-funding seen inst it inside = ground arith

-- In the code of a whole block, on every path: CREATE hands all the gas over, all but a 64th from
-- Tangerine Whistle on. Any other call hands over what has just been charged for it, and the stipend of
-- 2300 at most, unless the charge is the maximum of 63 bits; from Tangerine Whistle on the charge is at
-- most all but a 64th of the gas read last.
pub emit_block-funding :
    (s : Setting) (block : BasicBlock) (seen : Seen)
    → AreDistinct s.kinds
    → block.begin ≤ block.end
    → Always (funding s) (λ seen' it. Unit {0} × (it ≡ block.end)) seen (emit_block s block)
emit_block-funding s block seen distinct ordered =
    emit_block-Always (funding s) (λ seen'. Unit) (λ seen'. Unit) s block
      (λ seen' inst it _ inside. emit_instruction-funding s block distinct seen' inst it inside)
      (λ seen' _. (tt, tt)) seen tt ordered
