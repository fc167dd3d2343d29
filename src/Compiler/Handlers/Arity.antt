-- ===== src/Compiler/Handlers/Arity.antt =====
-- What each instruction takes from the stack and leaves there, and when it is invalid.
use evmjit.Prelude.{
  leb, ℕ, zero, suc, ◌-◌, ◌<◌, ◌≡◌, Bool, true, false, List, [], ◌∷◌, refl, not, arith,
}
use evmjit.Instruction.{Instruction}
use evmjit.Compiler.Blocks.{BasicBlock}
use evmjit.Compiler.Emit.{
  Emit, done, popping, pushing, dupping, swapping, ask, tell, Effect, ReturnCode,
}
use evmjit.Compiler.Handlers.{emit_instruction}
use evmjit.Compiler.Handlers.Control.{pop_topics}
use evmjit.Compiler.Setting.{Setting}

-- The items that the EVM specification takes from the stack and the items that it leaves there. DUPn
-- and SWAPn look at items that they leave.
abbrev pub stack_effect : Instruction → ℕ × ℕ
stack_effect Instruction.stop = (0, 0)
stack_effect Instruction.add = (2, 1)
stack_effect Instruction.mul = (2, 1)
stack_effect Instruction.sub = (2, 1)
stack_effect Instruction.div = (2, 1)
stack_effect Instruction.sdiv = (2, 1)
stack_effect Instruction.umod = (2, 1)
stack_effect Instruction.smod = (2, 1)
stack_effect Instruction.addmod = (3, 1)
stack_effect Instruction.mulmod = (3, 1)
stack_effect Instruction.exp = (2, 1)
stack_effect Instruction.signextend = (2, 1)
stack_effect Instruction.lt = (2, 1)
stack_effect Instruction.gt = (2, 1)
stack_effect Instruction.slt = (2, 1)
stack_effect Instruction.sgt = (2, 1)
stack_effect Instruction.eq = (2, 1)
stack_effect Instruction.iszero = (1, 1)
stack_effect Instruction.and = (2, 1)
stack_effect Instruction.or = (2, 1)
stack_effect Instruction.xor = (2, 1)
stack_effect Instruction.not = (1, 1)
stack_effect Instruction.byte = (2, 1)
stack_effect Instruction.sha3 = (2, 1)
stack_effect Instruction.balance = (1, 1)
stack_effect Instruction.calldataload = (1, 1)
stack_effect Instruction.calldatacopy = (3, 0)
stack_effect Instruction.codecopy = (3, 0)
stack_effect Instruction.extcodesize = (1, 1)
stack_effect Instruction.extcodecopy = (4, 0)
stack_effect Instruction.returndatacopy = (3, 0)
stack_effect Instruction.blockhash = (1, 1)
stack_effect Instruction.pop = (1, 0)
stack_effect Instruction.mload = (1, 1)
stack_effect Instruction.mstore = (2, 0)
stack_effect Instruction.mstore8 = (2, 0)
stack_effect Instruction.sload = (1, 1)
stack_effect Instruction.sstore = (2, 0)
stack_effect Instruction.jump = (1, 0)
stack_effect Instruction.jumpi = (2, 0)
stack_effect Instruction.jumpdest = (0, 0)
stack_effect (Instruction.dup n) = (n, suc n)
stack_effect (Instruction.swap n) = (suc n, suc n)
stack_effect (Instruction.log n) = (suc (suc n), 0)
stack_effect Instruction.create = (3, 1)
stack_effect Instruction.call = (7, 1)
stack_effect Instruction.callcode = (7, 1)
stack_effect Instruction.return = (2, 0)
stack_effect Instruction.delegatecall = (6, 1)
stack_effect Instruction.staticcall = (6, 1)
stack_effect Instruction.revert = (2, 0)
stack_effect Instruction.suicide = (1, 0)
stack_effect (Instruction.invalid b) = (0, 0)
stack_effect _ = (0, 1)

-- The instructions that a revision has, in a static call or not.
abbrev pub is_defined : Setting → Instruction → Bool
is_defined s Instruction.delegatecall = leb s.evmc.homestead s.rev
is_defined s Instruction.staticcall = leb s.evmc.byzantium s.rev
is_defined s Instruction.returndatasize = leb s.evmc.byzantium s.rev
is_defined s Instruction.returndatacopy = leb s.evmc.byzantium s.rev
is_defined s Instruction.revert = leb s.evmc.byzantium s.rev
is_defined s Instruction.sstore = not s.static_call
is_defined s Instruction.create = not s.static_call
is_defined s Instruction.suicide = not s.static_call
is_defined s (Instruction.log n) = not s.static_call
is_defined s (Instruction.invalid b) = false
is_defined s _ = true

-- The numbers of DUP and SWAP count from 1.
abbrev pub HasNumber : Instruction → Type 0
HasNumber (Instruction.dup n) = 0 < n
HasNumber (Instruction.swap n) = 0 < n
HasNumber _ = Unit

-- On every path, with `have` items on the stack: no item below them is touched, and `leave` are left.
abbrev pub Takes : ℕ → ℕ → Emit → Type 0
Takes have leave (done it) = have ≡ leave
Takes zero leave (popping e) = ⊥
Takes (suc have) leave (popping e) = (v : ℕ) → Takes have leave (e v)
Takes have leave (pushing v e) = Takes (suc have) leave e
Takes have leave (dupping i e) = (i < have) × Takes (suc have) leave e
Takes have leave (swapping i e) = (i < have) × Takes have leave e
Takes have leave (ask q e) = (v : ℕ) → Takes have leave (e v)
Takes have leave (tell f e) = Takes have leave e

pop_topics-Takes :
    (n : ℕ) (k : List ℕ → Emit) → ((ts : List ℕ) → Takes 0 0 (k ts)) → Takes n 0 (pop_topics n k)
unfolding pop_topics
pop_topics-Takes zero k rest = rest []
pop_topics-Takes (suc n) k rest = λ t. pop_topics-Takes n (λ ts. k (t ∷ ts)) λ ts. rest (t ∷ ts)

-- A defined instruction takes from the stack what the EVM specification says, and leaves what it says,
-- on every path through its code, whatever the host answers.
pub emit_instruction-Takes :
    (s : Setting) (block : BasicBlock) (inst : Instruction) (it : ℕ)
    → is_defined s inst ≡ true
    → HasNumber inst
    → Takes (stack_effect inst).0 (stack_effect inst).1 (emit_instruction s block inst it)
unfolding emit_instruction
emit_instruction-Takes s block (Instruction.log n) it defined number =
    let writes : s.static_call ≡ false = ground arith in
    rw writes (λ begin_idx num_bytes. pop_topics-Takes n _ λ ts my_addr. refl)
emit_instruction-Takes s block inst it defined number = ground arith

-- The code of an instruction that is not defined exits with OutOfGas and does nothing else, and the
-- rest of its block is not compiled.
pub emit_instruction-invalid :
    (s : Setting) (block : BasicBlock) (inst : Instruction) (it : ℕ)
    → is_defined s inst ≡ false
    → emit_instruction s block inst it
      ≡ tell (Effect.exit ReturnCode.out_of_gas) (done (block.end - 1))
unfolding emit_instruction
emit_instruction-invalid s block inst it undefined = ground arith
