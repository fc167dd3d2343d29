-- ===== src/Runtime.antt =====
-- `class RuntimeManager` of libevmjit/RuntimeManager.cpp: the data of the message that the compiled code
-- reads, the transaction context, the gas counter, the return data and the exits; and the structure
-- `RuntimeData` of libevmjit/JIT.h that `execute` of libevmjit/JIT.cpp fills. A pointer is an address; a
-- word is the number that the host reads from its bytes. The host's `get_tx_context` is a parameter.
pub mod Machine
pub mod Keeps
pub mod Context
pub mod Messages
pub mod Returns
pub mod Tests
use evmjit.Prelude.{
  ℕ, ◌+◌, ◌-◌, ◌%◌, ◌^◌, ◌<◌, Bool, true, false, List, ◌++◌, Option, none, some, length, replicate,
  ltb, ◌==◌, if◌then◌else◌,
}
use evmjit.Endianness.{bswap_if_le}
use evmjit.Compiler.Emit.{ReturnCode}
use evmjit.Jit.{Message}
use evmjit.Jit.Execute.{Run}
use evmjit.Memory.Require.{mem_require}

-- `RuntimeData`. `call_data` and `call_data_size` are the return data's fields, too.
pub record RuntimeData : Type 0 where
  pub gas : ℕ
  pub gas_price : ℕ
  pub call_data : ℕ
  pub call_data_size : ℕ
  pub apparent_value : ℕ
  pub code : ℕ
  pub code_size : ℕ
  pub address : ℕ
  pub caller : ℕ
  pub depth : ℕ

-- What `execute` puts there. A word and an address behind twelve zeros are copied as big-endian bytes.
-- `input_at` and `code_at` are where the host keeps the input and the code.
abbrev pub runtime_data : Bool → Message → (input_at code_at code_size : ℕ) → RuntimeData
runtime_data is_le msg input_at code_at code_size = record {
  gas = msg.gas;
  gas_price = 0;
  call_data = input_at;
  call_data_size = length msg.input;
  apparent_value = bswap_if_le is_le 32 msg.value;
  code = code_at;
  code_size = code_size;
  address = bswap_if_le is_le 32 msg.destination;
  caller = bswap_if_le is_le 32 msg.sender;
  depth = msg.depth;
}

-- `evm.txctx`, by what the compiler takes its items for.
pub record TxContext : Type 0 where
  pub gas_price : ℕ
  pub origin : ℕ
  pub coinbase : ℕ
  pub number : ℕ
  pub timestamp : ℕ
  pub gas_limit : ℕ
  pub difficulty : ℕ

-- The items by their index, which is at most 6. Those of 1 and 2 are addresses of 160 bits.
abbrev pub tx_item : TxContext → ℕ → ℕ
tx_item ctx index =
    if index == 0
    then ctx.gas_price
    else if index == 1
    then ctx.origin % 2 ^ 160
    else if index == 2
    then ctx.coinbase % 2 ^ 160
    else if index == 3
    then ctx.number
    else if index == 4
    then ctx.timestamp
    else if index == 5
    then ctx.gas_limit
    else ctx.difficulty

-- The variables of the main function, and what they point to: `elts` is what the entry block loads from
-- `RuntimeData`, `data_ptr` the structure itself. `tx_ctx_calls` counts the calls of the host's
-- `get_tx_context`, and `host_calls` those of its other functions.
pub record Runtime : Type 0 where
  pub elts : RuntimeData
  pub data_ptr : RuntimeData
  pub tx_ctx_loaded : Bool
  pub tx_ctx : Option TxContext
  pub tx_ctx_calls : ℕ
  pub host_calls : ℕ
  pub stack_allocated : Bool
  pub stack_size : ℕ
  pub gas : ℕ
  pub return_buf_size : ℕ
  pub mem_data : ℕ
  pub mem : List ℕ

-- `resetReturnBuf`.
unfoldable pub reset_return_buf : Runtime → Runtime
reset_return_buf rt = record rt { return_buf_size = 0 }

-- The constructor. The memory is that of a new `ExecutionContext`.
unfoldable pub new_runtime : RuntimeData → Runtime
unfolding reset_return_buf
new_runtime data_ptr = reset_return_buf (record {
  elts = data_ptr;
  data_ptr = data_ptr;
  tx_ctx_loaded = false;
  tx_ctx = none;
  tx_ctx_calls = 0;
  host_calls = 0;
  stack_allocated = true;
  stack_size = 0;
  gas = data_ptr.gas;
  return_buf_size = 0;
  mem_data = 0;
  mem = List.[];
})

unfoldable pub set_gas : ℕ → Runtime → Runtime
set_gas gas rt = record rt { gas = gas }

-- `registerReturnData`: the offset and the size as 64 bits.
unfoldable pub register_return_data : ℕ → ℕ → Runtime → Runtime
register_return_data offset size rt =
    let return_data_ptr = (rt.mem_data + offset) % 2 ^ 64 in
    record rt {
      data_ptr = record rt.data_ptr { call_data = return_data_ptr; call_data_size = size % 2 ^ 64 };
    }

-- The block Exit: it frees the stack and stores the gas, and the main function returns the code.
abbrev pub exit_block : Runtime → Runtime
exit_block rt = record rt {
  stack_allocated = false;
  data_ptr = record rt.data_ptr { gas = rt.gas };
}

-- `exit`, with what the context holds after the main function has returned.
unfoldable pub exit : ReturnCode → Runtime → Run
exit return_code rt =
    let left = exit_block rt in
    record {
      return_code = return_code;
      gas = left.data_ptr.gas;
      mem_data = left.mem_data;
      mem = left.mem;
      return_data = left.data_ptr.call_data;
      return_data_size = left.data_ptr.call_data_size;
    }

-- The function `loadTxCtx`, with the blocks Check and Load.
module _ (get_tx_context : ℕ → TxContext) where
  unfoldable pub load_tx_ctx : Runtime → Runtime
  load_tx_ctx rt = if rt.tx_ctx_loaded then rt else (record rt {
    tx_ctx_loaded = true;
    tx_ctx = some (get_tx_context rt.tx_ctx_calls);
    tx_ctx_calls = rt.tx_ctx_calls + 1;
  })

  -- None where nothing has been loaded.
  unfoldable pub get_tx_context_item : ℕ → Runtime → Option (ℕ × Runtime)
  unfolding load_tx_ctx
  get_tx_context_item index rt =
      let loaded = load_tx_ctx rt in
      elim loaded.tx_ctx [ none ↦ none | some ctx ↦ some (tx_item ctx index, loaded) ]

-- `Memory::require` on the variables: `mem.require`, and `array.extend` where the memory grows, which
-- `realloc` may move: `moved n` is the address of a memory of `n` bytes. None where it runs out of gas.
unfoldable pub require : (ℕ → ℕ) → ℕ → ℕ → Runtime → Option Runtime
require moved offset size rt = elim (mem_require rt.gas (length rt.mem) offset size) [
  | none ↦ none
  | some (gas, new_size) ↦
      let grown = record rt {
        mem = rt.mem ++ replicate (new_size - length rt.mem) 0;
        mem_data = moved new_size;
      } in
      some (record (if ltb (length rt.mem) new_size then grown else rt) { gas = gas })
]
