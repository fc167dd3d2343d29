-- ===== src/Compiler/Handlers/Data.antt =====
-- The cases of `Compiler::compileBasicBlock` of libevmjit/Compiler.cpp that read the memory, the
-- storage, the message and the transaction, and those that copy.
use evmjit.Prelude.{ℕ, ◌+◌, ◌-◌, ◌%◌, ◌^◌, length, ltb, ◌||◌, if◌then◌else◌}
use evmjit.Compiler.Blocks.{BasicBlock}
use evmjit.Compiler.Emit.{
  Emit, done, popping, pushing, ask, tell, Query, Effect, Source, ◌>>=◌, ◌>>◌,
}
use evmjit.Compiler.Setting.{Setting, int64_max, invalid_instruction}
use evmjit.Endianness.{bswap_if_le}
use evmjit.Ext
use evmjit.Gas.Dynamic.{sstore_cost, sha3_data_cost, copy_cost}
use evmjit.Memory.Copy.{copy_words, bytes_to_copy}

-- `Memory::copyBytes`.
abbrev pub emit_copy : ℕ → Source → ℕ → ℕ → ℕ → ℕ → Emit → Emit
emit_copy poison src src_size src_idx dest_mem_idx req_bytes k =
    let req = req_bytes % 2 ^ 64 in
    let to_copy = bytes_to_copy src_size src_idx req in
    let dst_idx = dest_mem_idx % 2 ^ 64 in
    do
      tell (Effect.require dest_mem_idx req_bytes)
      tell (Effect.count (copy_cost poison (copy_words req_bytes)))
      tell (Effect.mem_cpy src (src_idx % 2 ^ 64) dst_idx to_copy)
      tell (Effect.mem_zero ((dst_idx + to_copy) % 2 ^ 64) (req - to_copy))
      k

-- The cost that `Memory::copyBytesNoPadding` counts.
unfoldable pub copy_no_padding_cost : ℕ → ℕ → ℕ → ℕ → ℕ
unfolding copy_cost
copy_no_padding_cost poison src_size src_idx req_bytes =
    let req_size = (src_idx + req_bytes) % 2 ^ 256 in
    let overflow = ltb req_size req_bytes in
    let out_of_range = ltb src_size req_size in
    let buffer_overrun = overflow || out_of_range in
    copy_cost poison (if buffer_overrun then int64_max else copy_words req_bytes)

-- `Memory::copyBytesNoPadding`.
abbrev pub emit_copy_no_padding : ℕ → Source → ℕ → ℕ → ℕ → ℕ → Emit → Emit
emit_copy_no_padding poison src src_size src_idx dest_mem_idx req_bytes k = do
  tell (Effect.require dest_mem_idx req_bytes)
  tell (Effect.count (copy_no_padding_cost poison src_size src_idx req_bytes))
  tell (Effect.mem_cpy src (src_idx % 2 ^ 64) (dest_mem_idx % 2 ^ 64) (req_bytes % 2 ^ 64))
  k

-- A case that pushes what it reads.
abbrev pub push_query : Query → (ℕ → ℕ) → ℕ → Emit
push_query q f it = do v ← ask q; pushing (f v); done it

abbrev pub msize : ℕ → Emit
msize it = push_query Query.mem_size (λ v. v) it

module _ (s : Setting) where
  open s use {is_le, rev}
  open s.evmc use {byzantium}

  abbrev pub swap_word : ℕ → ℕ
  swap_word x = bswap_if_le is_le 32 x

  abbrev pub swap_address : ℕ → ℕ
  swap_address x = bswap_if_le is_le 20 x

  abbrev pub sha3 : ℕ → Emit
  sha3 it = do
    in_off ← popping
    in_size ← popping
    tell (Effect.require in_off in_size)
    tell (Effect.count (sha3_data_cost in_size))
    hash ← Ext.sha3 is_le in_off in_size
    pushing hash
    done it

  -- `Memory::loadWord`, `storeWord` and `storeByte` are called.
  abbrev pub mload : ℕ → Emit
  mload it = do
    addr ← popping
    tell (Effect.require addr 32)
    word ← ask (Query.mem_word (addr % 2 ^ 64))
    pushing (swap_word word)
    done it

  abbrev pub mstore : ℕ → Emit
  mstore it = do
    addr ← popping
    word ← popping
    tell (Effect.require addr 32)
    tell (Effect.store_word (addr % 2 ^ 64) (swap_word word))
    done it

  abbrev pub mstore8 : ℕ → Emit
  mstore8 it = do
    addr ← popping
    word ← popping
    tell (Effect.require addr 1)
    tell (Effect.store_byte (addr % 2 ^ 64) (word % 2 ^ 8))
    done it

  abbrev pub sload : ℕ → Emit
  sload it = do index ← popping; value ← Ext.sload is_le index; pushing value; done it

  -- `_gasMeter.countSStore` reads the old value.
  abbrev pub sstore : BasicBlock → ℕ → Emit
  sstore block it = if s.static_call then invalid_instruction block else (do
    index ← popping
    value ← popping
    old_value ← Ext.sload is_le index
    tell (Effect.count (sstore_cost old_value value))
    Ext.sstore is_le index value
    done it)

  abbrev pub address : ℕ → Emit
  address it = push_query Query.address swap_word it

  abbrev pub caller : ℕ → Emit
  caller it = push_query Query.sender swap_word it

  abbrev pub origin : ℕ → Emit
  origin it = push_query (Query.tx_context_item 1) swap_address it

  abbrev pub coinbase : ℕ → Emit
  coinbase it = push_query (Query.tx_context_item 2) swap_address it

  abbrev pub gasprice : ℕ → Emit
  gasprice it = push_query (Query.tx_context_item 0) swap_word it

  abbrev pub difficulty : ℕ → Emit
  difficulty it = push_query (Query.tx_context_item 6) swap_word it

  -- GASLIMIT, NUMBER and TIMESTAMP.
  abbrev pub block_item : ℕ → ℕ → Emit
  block_item index it = push_query (Query.tx_context_item index) (λ v. v) it

  abbrev pub callvalue : ℕ → Emit
  callvalue it = push_query Query.value swap_word it

  abbrev pub codesize : ℕ → Emit
  codesize it = do pushing (length s.code); done it

  abbrev pub calldatasize : ℕ → Emit
  calldatasize it = push_query Query.call_data_size (λ v. v) it

  abbrev pub returndatasize : BasicBlock → ℕ → Emit
  returndatasize block it =
      if ltb rev byzantium
      then invalid_instruction block
      else push_query Query.return_buf_size (λ v. v) it

  abbrev pub blockhash : ℕ → Emit
  blockhash it = do
    number ← popping
    let is_big_number = ltb int64_max number
    hash ← Ext.block_hash is_le number
    pushing (if is_big_number then 0 else hash)
    done it

  abbrev pub balance : ℕ → Emit
  balance it = do address ← popping; value ← Ext.balance is_le address; pushing value; done it

  abbrev pub extcodesize : ℕ → Emit
  extcodesize it = do
    addr ← popping
    codesize ← Ext.extcodesize is_le addr
    pushing codesize
    done it

  abbrev pub calldatacopy : ℕ → Emit
  calldatacopy it = do
    dest_mem_idx ← popping
    src_idx ← popping
    req_bytes ← popping
    src_size ← ask Query.call_data_size
    emit_copy s.poison Source.call_data src_size src_idx dest_mem_idx req_bytes
    done it

  abbrev pub returndatacopy : BasicBlock → ℕ → Emit
  returndatacopy block it = if ltb rev byzantium then invalid_instruction block else (do
    dest_mem_idx ← popping
    src_idx ← popping
    req_bytes ← popping
    src_size ← ask Query.return_buf_size
    emit_copy_no_padding s.poison Source.return_buf src_size src_idx dest_mem_idx req_bytes
    done it)

  abbrev pub codecopy : ℕ → Emit
  codecopy it = do
    dest_mem_idx ← popping
    src_idx ← popping
    req_bytes ← popping
    emit_copy s.poison Source.code (length s.code) src_idx dest_mem_idx req_bytes
    done it

  abbrev pub extcodecopy : ℕ → Emit
  extcodecopy it = do
    addr ← popping
    dest_mem_idx ← popping
    src_idx ← popping
    req_bytes ← popping
    size ← Ext.extcode is_le addr
    emit_copy s.poison Source.ext_code size src_idx dest_mem_idx req_bytes
    done it

  -- What `Ext::calldataload` yields for the call data is modelled by itself.
  abbrev pub calldataload : ℕ → Emit
  calldataload it = do idx ← popping; value ← ask (Query.call_data_load idx); pushing value; done it
