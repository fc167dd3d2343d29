-- ===== src/Runtime/Machine.antt =====
-- The code of a block run on the variables of the main function, with the stack as words and with what
-- the host answers. The cost of an instruction is taken where it is counted, which Gas/Metering compares
-- with the one check of a cost block.
use evmjit.Prelude.{
  ℕ, ◌+◌, ◌-◌, List, [], ◌∷◌, Option, none, some, ◌⊎◌, inl, inr, length, get_or, min,
}
use evmjit.Array.{write_at, mem_set}
use evmjit.Array.Laws.{first}
use evmjit.Compiler.Emit.{
  Emit, done, popping, pushing, dupping, swapping, ask, tell, Query, Effect, ReturnCode, Source,
  Output, CallArgs, area, address_slot,
}
use evmjit.Compiler.Setting.{Setting}
use evmjit.Gas.Check.{gas_check}
use evmjit.Gas.Schedule.{get_step_cost}
use evmjit.Instruction.{byte_at}
use evmjit.Jit.Execute.{Run}
use evmjit.LocalStack.Program.{dup_word, swap_words}
use evmjit.Memory.Copy.{mem_cpy}
use evmjit.Memory.Word.{load_word, store_word, calldataload}
use evmjit.Runtime.{
  Runtime, TxContext, get_tx_context_item, set_gas, reset_return_buf, register_return_data, exit,
  require,
}

-- The code goes on with its stack and variables, or the main function has returned.
pub data Outcome : Type 0 where
  finished : List ℕ → Runtime → Outcome
  returned : Run → Outcome

-- An answer of the host: its value and, of a call, the output and the size of the return data.
pub record Reply : Type 0 where
  pub value : ℕ
  pub output : List ℕ
  pub return_buf_size : ℕ

-- The host, by the number of calls before: its transaction context, its answers, and the bytes of the call
-- data, of return data and of other code. `moved n` is where `realloc` puts a memory of `n` bytes.
pub record World : Type 0 where
  pub setting : Setting
  pub get_tx_context : ℕ → TxContext
  pub moved : ℕ → ℕ
  pub reply : ℕ → Query → Reply
  pub source : ℕ → Source → ℕ → ℕ

-- The bytes of the memory, and other bytes in their place.
abbrev pub bytes_of : Runtime → ℕ → ℕ
bytes_of rt i = get_or rt.mem i 0

abbrev pub with_bytes : (ℕ → ℕ) → Runtime → Runtime
with_bytes data_at rt = record rt { mem = first data_at (length rt.mem) }

abbrev pub called : Runtime → Runtime
called rt = record rt { host_calls = rt.host_calls + 1 }

-- The output of a call goes to its area, as much as there is room for.
abbrev pub with_output : Output → List ℕ → Runtime → Runtime
with_output (area p count) output rt =
    with_bytes (mem_cpy (bytes_of rt) p (λ i. get_or output i 0) 0 (min count (length output))) rt
with_output address_slot output rt = rt

module _ (w : World) where
  abbrev source_bytes : Runtime → Source → ℕ → ℕ
  source_bytes rt Source.code = byte_at w.setting.code
  source_bytes rt src = w.source rt.host_calls src

  abbrev call_answer : CallArgs → Reply → Runtime → ℕ × Runtime
  call_answer args reply rt = (
    reply.value,
    called (record (with_output args.output reply.output rt) {
      return_buf_size = reply.return_buf_size;
    }),
  )

  unfoldable pub answer : Query → Runtime → Option (ℕ × Runtime)
  unfolding get_tx_context_item calldataload
  answer Query.address rt = some (rt.elts.address, rt)
  answer Query.sender rt = some (rt.elts.caller, rt)
  answer Query.value rt = some (rt.elts.apparent_value, rt)
  answer Query.call_data_size rt = some (rt.elts.call_data_size, rt)
  answer Query.return_buf_size rt = some (rt.return_buf_size, rt)
  answer Query.depth rt = some (rt.elts.depth, rt)
  answer Query.gas rt = some (rt.gas, rt)
  answer Query.mem_size rt = some (length rt.mem, rt)
  answer (Query.tx_context_item index) rt = get_tx_context_item w.get_tx_context index rt
  answer (Query.mem_word p) rt = some (load_word w.setting.is_le (bytes_of rt) p, rt)
  answer (Query.call_data_load index) rt = some (
    calldataload w.setting.is_le (source_bytes rt Source.call_data) rt.elts.call_data_size index,
    rt,
  )
  answer (Query.call args) rt = some (call_answer args (w.reply rt.host_calls (Query.call args)) rt)
  answer q rt = some ((w.reply rt.host_calls q).value, called rt)

  -- The main function goes on, or it has returned: where the gas runs out, `abort` jumps to the block Abort,
  -- which exits with OutOfGas. What the host does with its storage and its logs is left to it, and a jump
  -- to the terminator of the block.
  abbrev charged : Runtime → Option ℕ → Run ⊎ Runtime
  charged rt none = inl (exit ReturnCode.out_of_gas rt)
  charged rt (some gas) = inr (set_gas gas rt)

  abbrev required : Runtime → Option Runtime → Run ⊎ Runtime
  required rt none = inl (exit ReturnCode.out_of_gas rt)
  required rt (some rt') = inr rt'

  unfoldable pub perform : Effect → Runtime → Run ⊎ Runtime
  unfolding set_gas reset_return_buf register_return_data exit require
  perform (Effect.count_inst inst) rt =
      charged rt (gas_check rt.gas (get_step_cost w.setting.evmc w.setting.rev inst))
  perform (Effect.count cost) rt = charged rt (gas_check rt.gas cost)
  perform Effect.commit rt = inr rt
  perform (Effect.set_gas gas) rt = inr (set_gas gas rt)
  perform (Effect.require offset size) rt = required rt (require w.moved offset size rt)
  perform (Effect.store_word p word) rt =
      inr (with_bytes (store_word w.setting.is_le (bytes_of rt) p word) rt)
  perform (Effect.store_byte p byte) rt = inr (with_bytes (write_at (bytes_of rt) p byte) rt)
  perform (Effect.mem_cpy src idx p count) rt =
      inr (with_bytes (mem_cpy (bytes_of rt) p (source_bytes rt src) idx count) rt)
  perform (Effect.mem_zero p count) rt = inr (with_bytes (mem_set (bytes_of rt) p 0 count) rt)
  perform (Effect.set_storage address index value) rt = inr (called rt)
  perform (Effect.self_destruct address beneficiary) rt = inr (called rt)
  perform (Effect.log address p count topics) rt = inr (called rt)
  perform Effect.reset_return_buf rt = inr (reset_return_buf rt)
  perform (Effect.return_data offset size) rt = inr (register_return_data offset size rt)
  perform (Effect.jump dest) rt = inr rt
  perform (Effect.jump_if c dest) rt = inr rt
  perform (Effect.add_case dest) rt = inr rt
  perform (Effect.exit code) rt = inl (exit code rt)

  -- None where an item of the stack is missing.
  unfoldable pub run : Emit → List ℕ → Runtime → Option Outcome
  run (done it) stack rt = some (finished stack rt)
  run (popping e) [] rt = none
  run (popping e) (v ∷ stack) rt = run (e v) stack rt
  run (pushing v e) stack rt = run e (v ∷ stack) rt
  run (dupping i e) stack rt = elim (dup_word i stack) [
    | none ↦ none
    | some stack' ↦ run e stack' rt
  ]
  run (swapping i e) stack rt = elim (swap_words (i - 1) stack) [
    | none ↦ none
    | some stack' ↦ run e stack' rt
  ]
  run (ask q e) stack rt = elim (answer q rt) [ none ↦ none | some (v, rt') ↦ run (e v) stack rt' ]
  run (tell f e) stack rt = elim (perform f rt) [
    | inl left ↦ some (returned left)
    | inr rt' ↦ run e stack rt'
  ]
