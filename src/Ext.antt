-- ===== src/Ext.antt =====
-- The calls of the host's functions that `class Ext` of libevmjit/Ext.cpp emits. The host gets words
-- and addresses in big-endian order, an address as 160 bits; what it answers is turned back. A
-- pointer into the memory is an index of 64 bits.
pub mod Declarations
pub mod Slots
mod Tests
use evmjit.Prelude.{
  ℕ, ◌+◌, ◌%◌, ◌^◌, Bool, ltb, leb, ◌==◌, ◌&&◌, not, none, some, List, map, bit_or, if◌then◌else◌,
}
use evmjit.Endianness.{bswap_if_le}
use evmjit.Compiler.Emit.{Emit, ask, tell, Query, Effect, CallArgs, area, address_slot, ◌>>=◌, ◌>>◌}

-- The numbers that evmc gives to the kinds of a call; evmc is not part of the repository.
pub record CallKinds : Type 0 where
  pub call : ℕ
  pub delegatecall : ℕ
  pub callcode : ℕ
  pub create : ℕ

abbrev pub evm_call_failure : ℕ
evm_call_failure = 0x8000000000000000

-- `EVM_STATICCALL`.
abbrev pub evm_staticcall : CallKinds → ℕ
evm_staticcall kinds = kinds.create + 1

-- `CreateICmpSLT` of 64 bits.
abbrev pub slt64 : ℕ → ℕ → Bool
slt64 a b = ltb ((a + 2 ^ 63) % 2 ^ 64) ((b + 2 ^ 63) % 2 ^ 64)

module _ (is_le : Bool) where
  -- A word or an address for the host, and back.
  abbrev pub swap_word : ℕ → ℕ
  swap_word x = bswap_if_le is_le 32 x

  abbrev pub be_address : ℕ → ℕ
  be_address x = bswap_if_le is_le 20 (x % 2 ^ 160)

  abbrev pub my_addr : (ℕ → Emit) → Emit
  my_addr k = do a ← ask Query.address; k (be_address (swap_word a))

  abbrev pub sload : ℕ → (ℕ → Emit) → Emit
  sload index k = do
    my_addr ← my_addr
    value ← ask (Query.storage my_addr (swap_word index))
    k (swap_word value)

  abbrev pub sstore : ℕ → ℕ → Emit → Emit
  sstore index value k = do
    my_addr ← my_addr
    tell (Effect.set_storage my_addr (swap_word index) (swap_word value))
    k

  abbrev pub selfdestruct : ℕ → Emit → Emit
  selfdestruct beneficiary k = do
    my_addr ← my_addr
    tell (Effect.self_destruct my_addr (be_address beneficiary))
    k

  abbrev pub balance : ℕ → (ℕ → Emit) → Emit
  balance address k = do value ← ask (Query.balance (be_address address)); k (swap_word value)

  abbrev pub exists : ℕ → (Bool → Emit) → Emit
  exists address k = do r ← ask (Query.exists (be_address address)); k (r % 2 == 1)

  abbrev pub block_hash : ℕ → (ℕ → Emit) → Emit
  block_hash number k = do hash ← ask (Query.block_hash (number % 2 ^ 64)); k (swap_word hash)

  abbrev pub sha3 : ℕ → ℕ → (ℕ → Emit) → Emit
  sha3 in_off in_size k = do
    hash ← ask (Query.sha3 (in_off % 2 ^ 64) (in_size % 2 ^ 64))
    k (swap_word hash)

  -- The size of the code; the pointer to the code is the source `ext_code`.
  abbrev pub extcode : ℕ → (ℕ → Emit) → Emit
  extcode address k = do size ← ask (Query.code (be_address address)); k (size % 2 ^ 64)

  abbrev pub extcodesize : ℕ → (ℕ → Emit) → Emit
  extcodesize address k = do size ← ask (Query.code_size (be_address address)); k (size % 2 ^ 64)

  abbrev pub log : ℕ → ℕ → List ℕ → Emit → Emit
  log mem_idx num_bytes topics k = do
    my_addr ← my_addr
    tell (Effect.log my_addr (mem_idx % 2 ^ 64) (num_bytes % 2 ^ 64) (map swap_word topics))
    k

  -- The wrapper that `getCallFunc` emits, its blocks from the last to the first. The caller's address
  -- and the depth are its last two arguments.
  abbrev fail : CallArgs → (ℕ → Emit) → Emit
  fail args k = k (bit_or args.gas evm_call_failure)

  abbrev check_balance : CallArgs → ℕ → (ℕ → Emit) → Emit
  check_balance args addr k = do
    balance ← ask (Query.balance addr)
    if leb (swap_word args.value) (swap_word balance) then ask (Query.call args) k else fail args k

  abbrev check_transfer : CallKinds → CallArgs → ℕ → (ℕ → Emit) → Emit
  check_transfer kinds args addr k =
      let not_delegate_call = not (args.kind == kinds.delegatecall) in
      let value_non_zero = not (args.value == 0) in
      let transfer = not_delegate_call && value_non_zero in
      if transfer then check_balance args addr k else ask (Query.call args) k

  abbrev pub call_func : CallKinds → CallArgs → ℕ → ℕ → (ℕ → Emit) → Emit
  call_func kinds args addr depth k =
      if slt64 depth 1024 then check_transfer kinds args addr k else fail args k

  abbrev pub call : CallKinds → ℕ → ℕ → ℕ → ℕ → ℕ → ℕ → ℕ → ℕ → (ℕ → Emit) → Emit
  call kinds kind gas addr value in_off in_size out_off out_size k =
      let args : CallArgs = record {
        kind = kind;
        gas = gas % 2 ^ 64;
        address = some (be_address addr);
        value = swap_word value;
        in_off = in_off % 2 ^ 64;
        in_size = in_size % 2 ^ 64;
        output = area (out_off % 2 ^ 64) (out_size % 2 ^ 64);
      } in
      do
        my_addr ← my_addr
        tell Effect.reset_return_buf
        depth ← ask Query.depth
        call_func kinds args my_addr depth k

  abbrev pub create : CallKinds → ℕ → ℕ → ℕ → ℕ → (ℕ → Emit) → Emit
  create kinds gas endowment init_off init_size k =
      let args : CallArgs = record {
        kind = kinds.create;
        gas = gas;
        address = none;
        value = swap_word endowment;
        in_off = init_off % 2 ^ 64;
        in_size = init_size % 2 ^ 64;
        output = address_slot;
      } in
      do
        my_addr ← my_addr
        tell Effect.reset_return_buf
        depth ← ask Query.depth
        call_func kinds args my_addr depth k
