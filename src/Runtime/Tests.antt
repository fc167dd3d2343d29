-- ===== src/Runtime/Tests.antt =====
-- The variables of the main function in small runs.
use evmjit.Prelude.{
  ℕ, Option, ◌+◌, ◌%◌, ◌≡◌, refl, true, false, [], ◌∷◌, none, some, take, drop, arith,
}
use evmjit.Compiler.Emit.{Emit, ReturnCode, then_emit}
use evmjit.Compiler.Handlers.Control.{register_and_exit}
use evmjit.Compiler.Handlers.Data
use evmjit.Jit.{Message, Kind, StatusCode}
use evmjit.Memory.Expansion.{expand}
use evmjit.Jit.Execute.{status_of, result_of, get_return_data}
use evmjit.Memory.Require.{mem_require}
use evmjit.Compiler.Handlers.Tests.{setting}
use evmjit.Compiler.Handlers.{emit_block, emit_round, emit_instruction}
use evmjit.Gas.Check.{gas_check}
use evmjit.Gas.Schedule.{get_step_cost}
use evmjit.Instruction.{decode}
use evmjit.Instruction.PushData.{read_push_data}
use evmjit.Compiler.Blocks.{BasicBlock}
use evmjit.Compiler.Setting.{Setting}
use evmjit.Runtime.{
  Runtime, RuntimeData, TxContext, tx_item, runtime_data, new_runtime, get_tx_context_item, require,
  exit, register_return_data,
}
use evmjit.Runtime.Context.{get_tx_context_item-first}
use evmjit.Runtime.Machine.{World, Outcome, finished, run, answer, perform}
use evmjit.Runtime.Messages.{execute-handlers}
use evmjit.Runtime.Returns.{extended, result, register_and_exit-result}

-- A host that gives another context with each call.
abbrev get_tx_context : ℕ → TxContext
get_tx_context n = record {
  gas_price = n;
  origin = 7 + n;
  coinbase = 8 + n;
  number = 9 + n;
  timestamp = 10 + n;
  gas_limit = 11 + n;
  difficulty = 12 + n;
}

abbrev moved : ℕ → ℕ
moved n = 4096 % (n + 1)

abbrev msg : Message
msg = record {
  destination = 7;
  sender = 8;
  value = 9;
  input = 1 ∷ 2 ∷ [];
  code_hash = [];
  gas = 1000;
  depth = 0;
  is_static = false;
  kind = Kind.call;
}

abbrev filled : RuntimeData
filled = runtime_data true msg 300 400 5

-- ORIGIN, PUSH1 4, MSTORE, CALLDATASIZE.
abbrev code_setting : Setting
code_setting = record (setting false) { code = 0x32 ∷ 0x60 ∷ 4 ∷ 0x52 ∷ 0x36 ∷ [] }

abbrev world : World
world = record {
  setting = code_setting;
  get_tx_context = get_tx_context;
  moved = moved;
  reply = λ n q. record { value = n; output = []; return_buf_size = 0 };
  source = λ n src i. 0;
}

abbrev block : BasicBlock
block = record { first_instr_idx = 0; begin = 0; end = 5 }

abbrev runtime_of : Option Outcome → Runtime
runtime_of (some (finished stack rt)) = rt
runtime_of _ = new_runtime filled

-- The variables after the block.
abbrev after : Runtime
after = runtime_of (run world (emit_block code_setting block) [] (new_runtime filled))

-- The block takes 2, 3, 3 and 2 gas for its instructions and 6 for two words of memory.
block_runs :
    run world (emit_block code_setting block) [] (new_runtime filled)
    ≡ some (finished (2 ∷ []) after)
unfolding emit_block run then_emit emit_round perform gas_check new_runtime get_step_cost decode
    emit_instruction answer read_push_data mem_require
block_runs = refl

takes_gas : after.gas ≡ 984
unfolding emit_block run then_emit emit_round perform gas_check new_runtime get_step_cost decode
    emit_instruction answer read_push_data mem_require
takes_gas = refl

get_tx_context_item-first_example :
    (rt' : Runtime) × (get_tx_context_item get_tx_context 3 after
      ≡ some (tx_item (get_tx_context 0) 3, rt'))
    × (rt'.tx_ctx_calls ≡ 1)
get_tx_context_item-first_example =
    get_tx_context_item-first world (emit_block code_setting block) filled 3 block_runs

execute-handlers_example :
    let pushes = λ (handler : Emit) (v : ℕ).
      run world handler (2 ∷ []) after ≡ some (finished (v ∷ 2 ∷ []) after) in
    pushes (Data.address code_setting 1) 7
    × pushes (Data.caller code_setting 1) 8
    × pushes (Data.callvalue code_setting 1) 9
    × pushes (Data.calldatasize code_setting 1) 2
execute-handlers_example =
    execute-handlers world msg 300 400 5 1 (emit_block code_setting block) (omega arith)
      (omega arith) (omega arith) block_runs

abbrev at : ℕ → ℕ
at n = 4096

abbrev at_world : World
at_world = record world { moved = at }

abbrev start : Runtime
start = record (new_runtime filled) { gas = 1000 }

-- Two bytes from index 1 of a memory that has to grow by a word.
returns_two :
    result (run at_world (register_and_exit ReturnCode.return 0) (1 ∷ 2 ∷ []) start)
    ≡ some (record { status_code = StatusCode.success; gas_left = 997; output = 0 ∷ 0 ∷ [] })
unfolding run perform require exit register_return_data mem_require result_of get_return_data
    new_runtime
returns_two = refl

register_and_exit-result_example :
    result (run at_world (register_and_exit ReturnCode.return 0) (1 ∷ 2 ∷ []) start)
    ≡ some (elim (expand 1000 0 1 2) [
      | none ↦ record { status_code = StatusCode.failure; gas_left = 0; output = [] }
      | some (gas, n) ↦ record {
        status_code = status_of ReturnCode.return;
        gas_left = gas;
        output = take 2 (drop 1 (extended [] n));
      }
    ])
unfolding new_runtime
register_and_exit-result_example =
    register_and_exit-result at_world start refl (omega arith) ReturnCode.return 1 2 0 [] refl
      (omega arith) λ n small. omega arith
