-- ===== src/Compiler/Handlers.antt =====
-- The loop of `Compiler::compileBasicBlock` of libevmjit/Compiler.cpp and its switch over the
-- instructions.
pub mod Data
pub mod Calls
pub mod Control
pub mod Arity
pub mod OnStack
pub mod Loop
pub mod ReturnData
pub mod Tests
pub mod Funding
pub mod CalleeGas
pub mod MemoryAreas
pub mod InMemory
pub mod StaticCalls
pub mod GasReads
use evmjit.Prelude.{ℕ, zero, suc, ◌+◌, ◌-◌, ◌%◌, ◌^◌, List, Option, none, some, ◌==◌, if◌then◌else◌}
use evmjit.Instruction.{Instruction, decode, byte_at}
use evmjit.Instruction.PushData.{read_push_data}
use evmjit.Arith256.Power.{exp}
use evmjit.Compiler.Arithmetic
use evmjit.Compiler.Blocks.{BasicBlock}
use evmjit.Compiler.Bytes.{byte_word, signextend}
use evmjit.Compiler.Emit.{
  Emit, done, popping, pushing, dupping, swapping, tell, Effect, then_emit, ◌>>=◌, ◌>>◌,
}
use evmjit.Compiler.Handlers.Calls
use evmjit.Compiler.Handlers.Control
use evmjit.Compiler.Handlers.Data
use evmjit.Compiler.Setting.{Setting, invalid_instruction}
use evmjit.Gas.Dynamic.{exp_cost}

-- The cases that pop their arguments and push a result.
abbrev pub unary : (ℕ → ℕ) → ℕ → Emit
unary f it = do value ← popping; pushing (f value); done it

abbrev pub binary : (ℕ → ℕ → ℕ) → ℕ → Emit
binary f it = do lhs ← popping; rhs ← popping; pushing (f lhs rhs); done it

abbrev pub ternary : (ℕ → ℕ → ℕ → ℕ) → ℕ → Emit
ternary f it = do a ← popping; b ← popping; m ← popping; pushing (f a b m); done it

-- The result of the call of `exp`, which returns for every word.
abbrev pub returned : Option ℕ → ℕ
returned none = 0
returned (some r) = r

module _ (s : Setting) where
  open s use {ctlz, ctlz512, is_le}

  abbrev pub exp_case : ℕ → Emit
  exp_case it = do
    base ← popping
    exponent ← popping
    tell (Effect.count (exp_cost s.evmc s.rev ctlz exponent))
    pushing (returned (exp base exponent))
    done it

  abbrev pub push_case : BasicBlock → ℕ → Emit
  push_case block it =
      let (value, it') = read_push_data s.code it block.end in do pushing value; done it'

  module _ (block : BasicBlock) where
    unfoldable pub emit_instruction : Instruction → ℕ → Emit
    emit_instruction Instruction.add it = binary Arithmetic.add it
    emit_instruction Instruction.sub it = binary Arithmetic.sub it
    emit_instruction Instruction.mul it = binary Arithmetic.mul it
    emit_instruction Instruction.div it = binary (Arithmetic.div ctlz) it
    emit_instruction Instruction.sdiv it = binary (Arithmetic.sdiv_word ctlz) it
    emit_instruction Instruction.umod it = binary (Arithmetic.umod ctlz) it
    emit_instruction Instruction.smod it = binary (Arithmetic.smod ctlz) it
    emit_instruction Instruction.addmod it = ternary (Arithmetic.addmod ctlz512) it
    emit_instruction Instruction.mulmod it = ternary (Arithmetic.mulmod ctlz512) it
    emit_instruction Instruction.exp it = exp_case it
    emit_instruction Instruction.not it = unary Arithmetic.not_word it
    emit_instruction Instruction.lt it = binary Arithmetic.lt it
    emit_instruction Instruction.gt it = binary Arithmetic.gt it
    emit_instruction Instruction.slt it = binary Arithmetic.slt it
    emit_instruction Instruction.sgt it = binary Arithmetic.sgt it
    emit_instruction Instruction.eq it = binary Arithmetic.eq it
    emit_instruction Instruction.iszero it = unary Arithmetic.iszero it
    emit_instruction Instruction.and it = binary Arithmetic.and_word it
    emit_instruction Instruction.or it = binary Arithmetic.or_word it
    emit_instruction Instruction.xor it = binary Arithmetic.xor_word it
    emit_instruction Instruction.byte it = binary (byte_word is_le) it
    emit_instruction Instruction.signextend it = binary signextend it
    emit_instruction Instruction.sha3 it = Data.sha3 s it
    emit_instruction Instruction.pop it = do value ← popping; done it
    emit_instruction (Instruction.push n) it = push_case block it
    emit_instruction (Instruction.dup n) it = do dupping (n - 1); done it
    emit_instruction (Instruction.swap n) it = do swapping n; done it
    emit_instruction Instruction.mload it = Data.mload s it
    emit_instruction Instruction.mstore it = Data.mstore s it
    emit_instruction Instruction.mstore8 it = Data.mstore8 s it
    emit_instruction Instruction.msize it = Data.msize it
    emit_instruction Instruction.sload it = Data.sload s it
    emit_instruction Instruction.sstore it = Data.sstore s block it
    emit_instruction Instruction.jump it = Control.jump it
    emit_instruction Instruction.jumpi it = Control.jumpi it
    emit_instruction Instruction.jumpdest it = Control.jumpdest block it
    emit_instruction Instruction.pc it = Control.pc block it
    emit_instruction Instruction.gas it = Control.gas it
    emit_instruction Instruction.address it = Data.address s it
    emit_instruction Instruction.caller it = Data.caller s it
    emit_instruction Instruction.origin it = Data.origin s it
    emit_instruction Instruction.coinbase it = Data.coinbase s it
    emit_instruction Instruction.gasprice it = Data.gasprice s it
    emit_instruction Instruction.difficulty it = Data.difficulty s it
    emit_instruction Instruction.gaslimit it = Data.block_item s 5 it
    emit_instruction Instruction.number it = Data.block_item s 3 it
    emit_instruction Instruction.timestamp it = Data.block_item s 4 it
    emit_instruction Instruction.callvalue it = Data.callvalue s it
    emit_instruction Instruction.codesize it = Data.codesize s it
    emit_instruction Instruction.calldatasize it = Data.calldatasize s it
    emit_instruction Instruction.returndatasize it = Data.returndatasize s block it
    emit_instruction Instruction.blockhash it = Data.blockhash s it
    emit_instruction Instruction.balance it = Data.balance s it
    emit_instruction Instruction.extcodesize it = Data.extcodesize s it
    emit_instruction Instruction.calldatacopy it = Data.calldatacopy s it
    emit_instruction Instruction.returndatacopy it = Data.returndatacopy s block it
    emit_instruction Instruction.codecopy it = Data.codecopy s it
    emit_instruction Instruction.extcodecopy it = Data.extcodecopy s it
    emit_instruction Instruction.calldataload it = Data.calldataload s it
    emit_instruction Instruction.create it = Calls.create s block it
    emit_instruction Instruction.call it = Calls.call_family s Instruction.call block it
    emit_instruction Instruction.callcode it = Calls.call_family s Instruction.callcode block it
    emit_instruction Instruction.delegatecall it =
        Calls.call_family s Instruction.delegatecall block it
    emit_instruction Instruction.staticcall it = Calls.call_family s Instruction.staticcall block it
    emit_instruction Instruction.return it = Control.return it
    emit_instruction Instruction.revert it = Control.revert s block it
    emit_instruction Instruction.suicide it = Control.suicide s block it
    emit_instruction Instruction.stop it = Control.stop it
    emit_instruction (Instruction.log n) it = Control.log s n block it
    emit_instruction (Instruction.invalid b) it = invalid_instruction block

    -- One round of the loop: the instruction is counted before its own code.
    unfoldable pub emit_round : ℕ → Emit
    emit_round it =
        let inst = decode (byte_at s.code it) in
        tell (Effect.count_inst inst) (emit_instruction inst it)

    -- The loop from `it` on, on fuel: none where the fuel runs out on some path. The cost block is
    -- committed at the end.
    unfoldable pub emit_loop : ℕ → ℕ → Emit
    emit_loop zero it = done it
    emit_loop (suc fuel) it =
        let rest = then_emit (emit_round it) (λ it'. emit_loop fuel (it' + 1)) in
        if it == block.end then tell Effect.commit (done it) else rest

    -- A round passes at least one byte: one round for each byte and one more are enough.
    unfoldable pub emit_block : Emit
    unfolding emit_loop
    emit_block = emit_loop (block.end - block.begin + 1) block.begin
