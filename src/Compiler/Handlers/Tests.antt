-- ===== src/Compiler/Handlers/Tests.antt =====
-- Tests and examples for the code that is emitted for instructions and blocks.
use mathlib.Core.Option
use evmjit.LocalStack.Finalize.{run_block}
use evmjit.LocalStack.View.{stack_of}
use evmjit.Compiler.Handlers.OnStack.{program_of, emit_instruction-run_block}
use evmjit.Prelude.{ℕ, List, length, some, ◌++◌, ◌-◌, ◌≡◌, Bool, true, false, [], ◌∷◌, refl, arith}
use evmjit.Instruction.{Instruction}
use evmjit.Compiler.Blocks.{BasicBlock}
use evmjit.Compiler.Emit.{done, tell, Effect, ReturnCode}
use evmjit.Compiler.Handlers.{emit_instruction, emit_block}
use evmjit.Compiler.Handlers.Arity.{Takes, emit_instruction-Takes, emit_instruction-invalid}
use evmjit.Compiler.Handlers.Funding.{Seen, funding}
use evmjit.Compiler.Handlers.CalleeGas.{emit_block-funding}
use evmjit.Compiler.Handlers.Data.{copy_no_padding_cost}
use evmjit.Compiler.Handlers.GasReads.{gas_reads, emit_block-reads}
use evmjit.Compiler.Handlers.InMemory.{in_memory, emit_block-accesses}
use evmjit.Compiler.Handlers.ReturnData.{copy_no_padding_cost_lem}
use evmjit.Compiler.Handlers.StaticCalls.{changes, emit_block-changes}
use evmjit.Compiler.Observer.{Always}
use evmjit.Compiler.Setting.{Setting}
use evmjit.Ext.{CallKinds}
use evmjit.Gas.Check.{gas_check}
use evmjit.Gas.Schedule.{Revisions}

abbrev numbers : Revisions
numbers = record {
  homestead = 1;
  tangerine_whistle = 2;
  spurious_dragon = 3;
  byzantium = 4;
  constantinople = 5;
}

abbrev call_kinds : CallKinds
call_kinds = record { call = 0; delegatecall = 1; callcode = 2; create = 3 }

-- PUSH1 4, MLOAD, GAS, CALL, SSTORE, ADD and STOP, in Byzantium on a little-endian host.
abbrev pub setting : Bool → Setting
setting static_call = record {
  evmc = numbers;
  kinds = call_kinds;
  rev = 4;
  static_call = static_call;
  code = 0x60 ∷ 4 ∷ 0x51 ∷ 0x5a ∷ 0xf1 ∷ 0x55 ∷ 0x01 ∷ 0x00 ∷ [];
  is_le = true;
  ctlz = λ x. 0;
  ctlz512 = λ x. 0;
  poison = 5;
}

abbrev block : BasicBlock
block = record { first_instr_idx = 0; begin = 0; end = 8 }

-- In a static call, SSTORE ends the block: neither ADD nor STOP is compiled.
sstore_alone :
    emit_instruction (setting true) block Instruction.sstore 5
    ≡ tell (Effect.exit ReturnCode.out_of_gas) (done 7)
unfolding emit_instruction
sstore_alone = refl

emit_instruction-Takes_example :
    Takes 7 1 (emit_instruction (setting false) block Instruction.call 4)
emit_instruction-Takes_example =
    emit_instruction-Takes (setting false) block Instruction.call 4 refl tt

emit_instruction-invalid_example :
    emit_instruction (setting true) block (Instruction.log 2) 5
    ≡ tell (Effect.exit ReturnCode.out_of_gas) (done (8 - 1))
emit_instruction-invalid_example =
    emit_instruction-invalid (setting true) block (Instruction.log 2) 5 refl

emit_block-reads_example :
    Always gas_reads
      (λ counted it. (counted ≡ false) × (it ≡ 8))
      false
      (emit_block (setting false) block)
emit_block-reads_example = emit_block-reads (setting false) block (omega arith)

emit_block-changes_example :
    Always
      (changes call_kinds)
      (λ charged it. Unit {0} × (it ≡ 8))
      false
      (emit_block (setting true) block)
emit_block-changes_example =
    emit_block-changes (setting true) block (omega arith, (omega arith, omega arith)) refl
      (omega arith)

emit_block-accesses_example :
    Always
      (in_memory (λ n. 1000) (λ n. 32))
      (λ given it. it ≡ 8)
      (0, some [])
      (emit_block (setting false) block)
emit_block-accesses_example =
    emit_block-accesses (λ n. 1000) (λ n. 32) (λ n. refl) (λ n. omega arith) (setting false) block
      (omega arith)

abbrev unseen : Seen
unseen = record { gas = 0; charge = 0 }

emit_block-funding_example :
    Always
      (funding (setting false))
      (λ seen it. Unit {0} × (it ≡ 8))
      unseen
      (emit_block (setting false) block)
emit_block-funding_example =
    emit_block-funding (setting false) block unseen (omega arith, (omega arith, omega arith))
      (omega arith)

-- A range that leaves the return data, with a poison of 0: nothing is charged.
copy_no_padding_cost_lem_example : gas_check 100 (copy_no_padding_cost 0 64 32 33) ≡ gas_check 100 0
copy_no_padding_cost_lem_example =
    copy_no_padding_cost_lem 0 100 64 32 33 (omega arith) (omega arith) (omega arith) (omega arith)

-- ADD on the words 2, 1 and 0, the top first.
emit_instruction-run_block_example :
    (top' : List ℕ) × (length top' ≡ 1)
    × (Option.map
          (λ (r : (ℕ → ℕ) × ℕ). stack_of r.0 r.1)
          (run_block
            (program_of (λ n. 0) (emit_instruction (setting false) block Instruction.add 6))
            (λ j. j)
            3)
        ≡ some (top' ++ 0 ∷ []))
unfolding stack_of
emit_instruction-run_block_example =
    emit_instruction-run_block (setting false) block Instruction.add 6 (λ n. 0) (λ j. j) 3
      (2 ∷ 1 ∷ []) (0 ∷ []) refl tt (omega arith) refl refl (omega arith)
