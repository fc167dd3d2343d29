-- ===== src/Compiler/Handlers/Calls.antt =====
-- The cases CREATE, CALL, CALLCODE, DELEGATECALL and STATICCALL of `Compiler::compileBasicBlock` of
-- libevmjit/Compiler.cpp.
use evmjit.Prelude.{
  ℕ, ◌+◌, ◌-◌, ◌/◌, ◌%◌, ◌^◌, Bool, true, false, ltb, leb, ◌==◌, ◌&&◌, ◌||◌, if◌then◌else◌,
}
use evmjit.Instruction.{Instruction}
use evmjit.Compiler.Arithmetic.{zext}
use evmjit.Compiler.Blocks.{BasicBlock}
use evmjit.Compiler.Emit.{Emit, done, popping, pushing, ask, tell, Query, Effect, ◌>>=◌, ◌>>◌}
use evmjit.Compiler.Setting.{
  Setting, int64_max, invalid_instruction, give_back, call_succeeded, call_gas_left,
}
use evmjit.Endianness.{bswap_if_le}
use evmjit.Ext
use evmjit.Ext.{evm_staticcall}
use evmjit.Gas.Dynamic.{clamp_cost}
use evmjit.Gas.Schedule.{jit_schedule}
open jit_schedule use {value_transfer_gas, call_stipend, call_new_account}

-- The tests of `inst`.
abbrev pub is_call_inst : Instruction → Bool
is_call_inst Instruction.call = true
is_call_inst _ = false

abbrev pub has_value : Instruction → Bool
has_value Instruction.callcode = true
has_value inst = is_call_inst inst

abbrev pop_value : Instruction → (ℕ → Emit) → Emit
pop_value inst k = if has_value inst then popping k else k 0

-- The gas that stays with the caller: a 64th of it.
abbrev pub gas_kept_of : ℕ → ℕ
gas_kept_of gas = gas / 2 ^ 6

module _ (s : Setting) where
  open s use {is_le, rev, kinds}
  open s.evmc use {homestead, tangerine_whistle, spurious_dragon, byzantium}

  abbrev pub create : BasicBlock → ℕ → Emit
  create block it = if s.static_call then invalid_instruction block else (do
    endowment ← popping
    init_off ← popping
    init_size ← popping
    tell (Effect.require init_off init_size)
    tell Effect.commit
    gas ← ask Query.gas
    let gas_kept = if leb tangerine_whistle rev then gas_kept_of gas else 0
    let create_gas = gas - gas_kept
    r ← Ext.create is_le kinds create_gas endowment init_off init_size
    let ret = call_succeeded r
    tell (Effect.set_gas ((call_gas_left r + gas_kept) % 2 ^ 64))
    addr ← ask Query.created_address
    pushing (if ret then bswap_if_le is_le 20 addr else 0)
    done it)

  -- The tests before the first pop.
  abbrev pub is_invalid_call : Instruction → Bool
  is_invalid_call Instruction.delegatecall = ltb rev homestead
  is_invalid_call Instruction.staticcall = ltb rev byzantium
  is_invalid_call _ = false

  -- The lambda that computes `kind`.
  abbrev pub call_kind : Instruction → ℕ
  call_kind Instruction.callcode = kinds.callcode
  call_kind Instruction.delegatecall = kinds.delegatecall
  call_kind Instruction.staticcall = evm_staticcall kinds
  call_kind _ = kinds.call

  -- The penalty for a call of an account that does not exist.
  abbrev count_new_account : Instruction → ℕ → Bool → Emit → Emit
  count_new_account inst address no_transfer k =
      if is_call_inst inst
      then (do
        account_exists ← Ext.exists is_le address
        let no_penalty_cond =
            if leb spurious_dragon rev then account_exists || no_transfer else account_exists
        tell (Effect.count (if no_penalty_cond then 0 else call_new_account))
        k)
      else k

  -- From Tangerine Whistle on a call gets at most all but a 64th of the gas.
  abbrev pub limit_gas : ℕ → (ℕ → Emit) → Emit
  limit_gas call_gas k =
      if leb tangerine_whistle rev
      then (do
        gas ← ask Query.gas
        let gas_max_allowed = gas - gas_kept_of gas
        k (if ltb gas_max_allowed call_gas then gas_max_allowed else call_gas))
      else k call_gas

  -- The four cases share their code.
  abbrev pub call_family : Instruction → BasicBlock → ℕ → Emit
  call_family inst block it = if is_invalid_call inst then invalid_instruction block else (do
    call_gas ← popping
    address ← popping
    value ← pop_value inst
    in_off ← popping
    in_size ← popping
    out_off ← popping
    out_size ← popping
    tell Effect.commit
    tell (Effect.require out_off out_size)
    tell (Effect.require in_off in_size)
    let no_transfer = value == 0
    let transfer_gas = if is_call_inst inst && s.static_call then int64_max else value_transfer_gas
    tell (Effect.count (if no_transfer then 0 else transfer_gas))
    count_new_account inst address no_transfer
    limited_gas ← limit_gas call_gas
    tell (Effect.count (clamp_cost limited_gas))
    let stipend = if no_transfer then 0 else call_stipend
    let gas = limited_gas % 2 ^ 64 + stipend
    r ← Ext.call is_le kinds (call_kind inst) gas address value in_off in_size out_off out_size
    give_back (call_gas_left r)
    pushing (zext (call_succeeded r))
    done it)
