-- ===== src/Compiler/Emit.antt =====
-- The code that the compiler emits for an instruction, as a tree. A node is a call of the stack, a
-- value that is known only when the code runs, with the rest for each of its values, or an effect.
-- The functions that emit take what follows, so that the do blocks of the handlers read as the
-- statements of the source.
use evmjit.Prelude.{ℕ, List, Option}
use evmjit.Instruction.{Instruction}

-- `enum class ReturnCode`; it has no other code that the compiler uses.
pub data ReturnCode : Type 0 where
  stop return revert out_of_gas : ReturnCode

-- Where `copyBytes` copies from.
pub data Source : Type 0 where
  call_data code return_buf ext_code : Source

-- Where a call leaves its output: an area of the memory, or the slot for the address of a created
-- contract.
pub data Output : Type 0 where
  area : ℕ → ℕ → Output
  address_slot : Output

-- The arguments of the function `evm.call`; the address and the value have the byte order of the
-- host's interface. CREATE leaves the address undefined.
pub record CallArgs : Type 0 where
  pub kind : ℕ
  pub gas : ℕ
  pub address : Option ℕ
  pub value : ℕ
  pub in_off : ℕ
  pub in_size : ℕ
  pub output : Output

-- What the emitted code reads: the data of the message, items of the transaction context, the gas
-- counter, the memory, and the answers of the host's functions.
pub data Query : Type 0 where
  address sender value call_data_size return_buf_size depth gas mem_size : Query
  tx_context_item mem_word call_data_load : ℕ → Query
  exists balance code_size code block_hash : ℕ → Query
  storage sha3 : ℕ → ℕ → Query
  call : CallArgs → Query
  created_address : Query

pub data Effect : Type 0 where
  count_inst : Instruction → Effect
  count : ℕ → Effect
  commit : Effect
  set_gas : ℕ → Effect
  require : ℕ → ℕ → Effect
  store_word store_byte : ℕ → ℕ → Effect
  mem_cpy : Source → ℕ → ℕ → ℕ → Effect
  mem_zero : ℕ → ℕ → Effect
  set_storage : ℕ → ℕ → ℕ → Effect
  self_destruct : ℕ → ℕ → Effect
  log : ℕ → ℕ → ℕ → List ℕ → Effect
  reset_return_buf : Effect
  return_data : ℕ → ℕ → Effect
  jump : ℕ → Effect
  jump_if : ℕ → ℕ → Effect
  add_case : ℕ → Effect
  exit : ReturnCode → Effect

-- `done it` ends the code of an instruction, with the iterator that the loop over the block goes on
-- from.
pub data Emit : Type 0 where
  done : ℕ → Emit
  popping : (ℕ → Emit) → Emit
  pushing : ℕ → Emit → Emit
  dupping swapping : ℕ → Emit → Emit
  ask : Query → (ℕ → Emit) → Emit
  tell : Effect → Emit → Emit

infixl 5 ◌>>=◌ ◌>>◌
abbrev pub ◌>>=◌ : {A : Type 0} → ((A → Emit) → Emit) → (A → Emit) → Emit
m >>= k = m k

abbrev pub ◌>>◌ : (Emit → Emit) → Emit → Emit
m >> k = m k

-- The code of one instruction after the other.
unfoldable pub then_emit : Emit → (ℕ → Emit) → Emit
then_emit (done it) k = k it
then_emit (popping e) k = popping λ v. then_emit (e v) k
then_emit (pushing v e) k = pushing v (then_emit e k)
then_emit (dupping i e) k = dupping i (then_emit e k)
then_emit (swapping i e) k = swapping i (then_emit e k)
then_emit (ask q e) k = ask q λ v. then_emit (e v) k
then_emit (tell f e) k = tell f (then_emit e k)
