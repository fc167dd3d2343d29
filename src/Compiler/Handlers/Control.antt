-- ===== src/Compiler/Handlers/Control.antt =====
-- The cases of `Compiler::compileBasicBlock` of libevmjit/Compiler.cpp for jumps, for the gas, for
-- what ends the contract, and for logs.
use evmjit.Prelude.{
  ℕ, zero, suc, ◌+◌, ◌-◌, ◌%◌, ◌^◌, Bool, List, [], ◌∷◌, ltb, leb, ◌==◌, ◌||◌, if◌then◌else◌,
}
use evmjit.Compiler.Blocks.{BasicBlock}
use evmjit.Compiler.Emit.{
  Emit, done, popping, pushing, ask, tell, Query, Effect, ReturnCode, ◌>>=◌, ◌>>◌,
}
use evmjit.Compiler.Setting.{Setting, invalid_instruction, exit}
use evmjit.Endianness.{bswap_if_le}
use evmjit.Ext
use evmjit.Gas.Dynamic.{clamp_cost, log_data_cost}
use evmjit.Gas.Schedule.{jit_schedule}
open jit_schedule use {call_new_account}

abbrev pub jump : ℕ → Emit
jump it = do dest_idx ← popping; tell (Effect.jump dest_idx); done it

abbrev pub jumpi : ℕ → Emit
jumpi it = do
  dest_idx ← popping
  condition ← popping
  tell (Effect.jump_if condition dest_idx)
  done it

abbrev pub jumpdest : BasicBlock → ℕ → Emit
jumpdest block it = do tell (Effect.add_case block.first_instr_idx); done it

abbrev pub pc : BasicBlock → ℕ → Emit
pc block it = do pushing (it - block.begin + block.first_instr_idx); done it

abbrev pub gas : ℕ → Emit
gas it = do tell Effect.commit; gas ← ask Query.gas; pushing gas; done it

abbrev pub stop : ℕ → Emit
stop it = do exit ReturnCode.stop; done it

-- RETURN and REVERT: `RuntimeManager::registerReturnData` gets the index as a pointer of 64 bits.
abbrev pub register_and_exit : ReturnCode → ℕ → Emit
register_and_exit code it = do
  index ← popping
  size ← popping
  tell (Effect.require index size)
  tell (Effect.return_data (index % 2 ^ 64) (size % 2 ^ 64))
  exit code
  done it

abbrev pub return : ℕ → Emit
return it = register_and_exit ReturnCode.return it

-- The topics, in the order in which they are popped.
unfoldable pub pop_topics : ℕ → (List ℕ → Emit) → Emit
pop_topics zero k = k []
pop_topics (suc n) k = popping λ t. pop_topics n λ ts. k (t ∷ ts)

module _ (s : Setting) where
  open s use {is_le, rev}
  open s.evmc use {tangerine_whistle, spurious_dragon, byzantium}

  abbrev pub revert : BasicBlock → ℕ → Emit
  revert block it =
      if ltb rev byzantium
      then invalid_instruction block
      else register_and_exit ReturnCode.revert it

  -- `noPenaltyCond` of SUICIDE: the balance of the contract is read from Spurious Dragon on.
  abbrev no_penalty : Bool → (Bool → Emit) → Emit
  no_penalty dest_exists k =
      if leb spurious_dragon rev
      then (do
        address ← ask Query.address
        balance ← Ext.balance is_le (bswap_if_le is_le 32 address)
        k (dest_exists || balance == 0))
      else k dest_exists

  abbrev count_dest : ℕ → Emit → Emit
  count_dest dest k =
      if leb tangerine_whistle rev
      then (do
        dest_exists ← Ext.exists is_le dest
        no_penalty_cond ← no_penalty dest_exists
        tell (Effect.count (if no_penalty_cond then 0 else call_new_account))
        k)
      else k

  abbrev pub suicide : BasicBlock → ℕ → Emit
  suicide block it =
      if s.static_call
      then invalid_instruction block
      else (do dest ← popping; count_dest dest; Ext.selfdestruct is_le dest; stop it)

  abbrev pub log : ℕ → BasicBlock → ℕ → Emit
  log num_topics block it = if s.static_call then invalid_instruction block else (do
    begin_idx ← popping
    num_bytes ← popping
    tell (Effect.require begin_idx num_bytes)
    tell (Effect.count (clamp_cost (log_data_cost num_bytes)))
    topics ← pop_topics num_topics
    Ext.log is_le begin_idx num_bytes topics
    done it)
