-- ===== src/Compiler/Setting.antt =====
-- What `Compiler::compileBasicBlock` of libevmjit/Compiler.cpp depends on, and the statements that its
-- cases share.
use evmjit.Prelude.{ℕ, ◌+◌, ◌-◌, ◌%◌, ◌^◌, Bool, List, ltb, if◌then◌else◌}
use evmjit.Compiler.Blocks.{BasicBlock}
use evmjit.Compiler.Emit.{Emit, done, ask, tell, Query, Effect, ReturnCode, ◌>>=◌, ◌>>◌}
use evmjit.Gas.Schedule.{Revisions}
use evmjit.Ext.{CallKinds, evm_call_failure}

-- `m_rev`, `m_staticCall`, the code, the host's byte order, and LLVM's `ctlz` of 256 and of 512 bits. `poison`
-- is what the machine makes of a value that LLVM leaves undefined.
pub record Setting : Type 0 where
  pub evmc : Revisions
  pub kinds : CallKinds
  pub rev : ℕ
  pub static_call : Bool
  pub code : List ℕ
  pub is_le : Bool
  pub ctlz : ℕ → ℕ
  pub ctlz512 : ℕ → ℕ
  pub poison : ℕ

abbrev pub int64_max : ℕ
int64_max = 2 ^ 63 - 1

-- `_gasMeter.giveBack`.
abbrev pub give_back : ℕ → Emit → Emit
give_back gas k = do left ← ask Query.gas; tell (Effect.set_gas ((left + gas) % 2 ^ 64)); k

-- `_runtimeManager.exit`.
abbrev pub exit : ReturnCode → Emit → Emit
exit code k = tell (Effect.exit code) k

-- The label `invalidInstruction` and the default case: the compilation of the block is finished.
abbrev pub invalid_instruction : BasicBlock → Emit
invalid_instruction block = do exit ReturnCode.out_of_gas; done (block.end - 1)

-- `r` of a call or a creation, an `int64_t`: whether it succeeded, and the gas it left.
abbrev pub call_succeeded : ℕ → Bool
call_succeeded r = ltb r (2 ^ 63)

abbrev pub call_gas_left : ℕ → ℕ
call_gas_left r =
    let rmagic = if call_succeeded r then 0 else evm_call_failure in (r + 2 ^ 64 - rmagic) % 2 ^ 64
