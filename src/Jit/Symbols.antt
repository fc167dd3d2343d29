-- ===== src/Jit/Symbols.antt =====
-- How the emitted code reaches the host: the functions that libevmjit/Ext.cpp and RuntimeManager.cpp
-- declare, by their names, and `SymbolResolver::findSymbol` of libevmjit/JIT.cpp. The prefix for global
-- symbols is that of LLVM's data layout, the null character where it has none; the search in the process is a parameter.
pub mod Laws
mod Tests
use Prim.Native.Char.{Char, code}
use Prim.Native.String.{String}
use text.Mathlib.Text.{◌==◌ as ◌str_eq◌}
use evmjit.Ext.Declarations.{
  FuncDecl, sha3_decl, account_exists_decl, get_storage_decl, set_storage_decl, get_balance_decl,
  get_code_size_decl, get_code_decl, selfdestruct_decl, call_decl, tx_context_decl, block_hash_decl,
  log_decl,
}
use evmjit.Prelude.{ℕ, ◌==◌, ◌&&◌, not, if◌then◌else◌}

-- The functions of the host's table, and the three that the JIT itself gives.
pub data HostFunc : Type 0 where
  keccak account_exists get_storage set_storage get_balance get_code_size : HostFunc
  get_code selfdestruct call get_tx_context get_block_hash emit_log : HostFunc

-- The declarations that stand for them in the emitted code.
abbrev pub decl : HostFunc → FuncDecl
decl HostFunc.keccak = sha3_decl
decl HostFunc.account_exists = account_exists_decl
decl HostFunc.get_storage = get_storage_decl
decl HostFunc.set_storage = set_storage_decl
decl HostFunc.get_balance = get_balance_decl
decl HostFunc.get_code_size = get_code_size_decl
decl HostFunc.get_code = get_code_decl
decl HostFunc.selfdestruct = selfdestruct_decl
decl HostFunc.call = call_decl
decl HostFunc.get_tx_context = tx_context_decl
decl HostFunc.get_block_hash = block_hash_decl
decl HostFunc.emit_log = log_decl

unfoldable pub declared : HostFunc → String
declared f = (decl f).name

-- `unprefixedName`.
unfoldable pub unprefixed : Char → String → String
unprefixed prefix String.[] = String.[]
unprefixed prefix (String.◌∷◌ c name) =
    if not (code prefix == 0) && code c == code prefix then name else String.◌∷◌ c name

module _ (address : HostFunc → ℕ) (find_in_process : String → ℕ) where
  -- The `StringSwitch`.
  abbrev pub host_address : String → ℕ
  host_address name =
      if name str_eq "env_sha3"
      then address HostFunc.keccak
      else if name str_eq "evm.exists"
      then address HostFunc.account_exists
      else if name str_eq "evm.sload"
      then address HostFunc.get_storage
      else if name str_eq "evm.sstore"
      then address HostFunc.set_storage
      else if name str_eq "evm.balance"
      then address HostFunc.get_balance
      else if name str_eq "evm.codesize"
      then address HostFunc.get_code_size
      else if name str_eq "evm.code"
      then address HostFunc.get_code
      else if name str_eq "evm.selfdestruct"
      then address HostFunc.selfdestruct
      else if name str_eq "evm.call"
      then address HostFunc.call
      else if name str_eq "evm.get_tx_context"
      then address HostFunc.get_tx_context
      else if name str_eq "evm.blockhash"
      then address HostFunc.get_block_hash
      else if name str_eq "evm.log"
      then address HostFunc.emit_log
      else 0

  unfoldable pub find_symbol : Char → String → ℕ
  unfolding unprefixed
  find_symbol prefix name =
      let addr = host_address (unprefixed prefix name) in
      if addr == 0 then find_in_process name else addr
