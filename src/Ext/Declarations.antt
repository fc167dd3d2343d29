-- ===== src/Ext/Declarations.antt =====
-- The functions of the host as libevmjit/Ext.cpp and RuntimeManager.cpp declare them in the module: their
-- names, types and attributes. A parameter is counted from 1 in the attributes, as LLVM does.
use Prim.Native.String.{String}
use evmjit.Prelude.{ℕ, List, [], ◌∷◌, ◌++◌}

pub data Ty : Type 0 where
  void i32 i64 size gas word addr env_ptr addr_ptr word_ptr byte_ptr byte_ptr_ptr size_ptr
        tx_ctx_ptr :
      Ty

pub data Attribute : Type 0 where
  no_alias no_capture read_only : Attribute

pub record FuncDecl : Type 0 where
  pub name : String
  pub ret : Ty
  pub params : List Ty
  pub attributes : List (ℕ × Attribute)

-- `NoAlias` and `NoCapture` of a result, and with `ReadOnly` of an argument.
abbrev out : ℕ → List (ℕ × Attribute)
out n = (n, Attribute.no_alias) ∷ (n, Attribute.no_capture) ∷ []

abbrev into : ℕ → List (ℕ × Attribute)
into n = (n, Attribute.read_only) ∷ out n

-- `EnvFunc::sha3`, the only one of `getEnvFuncDescs` that is called.
abbrev pub sha3_decl : FuncDecl
sha3_decl = record {
  name = "env_sha3";
  ret = Ty.void;
  params = Ty.byte_ptr ∷ Ty.size ∷ Ty.word_ptr ∷ [];
  attributes = [];
}

abbrev pub account_exists_decl : FuncDecl
account_exists_decl = record {
  name = "evm.exists";
  ret = Ty.i32;
  params = Ty.env_ptr ∷ Ty.addr_ptr ∷ [];
  attributes = [];
}

abbrev pub get_storage_decl : FuncDecl
get_storage_decl = record {
  name = "evm.sload";
  ret = Ty.void;
  params = Ty.word_ptr ∷ Ty.env_ptr ∷ Ty.addr_ptr ∷ Ty.word_ptr ∷ [];
  attributes = out 1 ++ into 3 ++ into 4;
}

abbrev pub set_storage_decl : FuncDecl
set_storage_decl = record {
  name = "evm.sstore";
  ret = Ty.void;
  params = Ty.env_ptr ∷ Ty.addr_ptr ∷ Ty.word_ptr ∷ Ty.word_ptr ∷ [];
  attributes = into 2 ++ into 3;
}

abbrev pub get_balance_decl : FuncDecl
get_balance_decl = record {
  name = "evm.balance";
  ret = Ty.void;
  params = Ty.word_ptr ∷ Ty.env_ptr ∷ Ty.addr_ptr ∷ [];
  attributes = out 1 ++ into 3;
}

abbrev pub get_code_size_decl : FuncDecl
get_code_size_decl = record {
  name = "evm.codesize";
  ret = Ty.size;
  params = Ty.env_ptr ∷ Ty.addr_ptr ∷ [];
  attributes = into 2;
}

abbrev pub get_code_decl : FuncDecl
get_code_decl = record {
  name = "evm.code";
  ret = Ty.size;
  params = Ty.byte_ptr_ptr ∷ Ty.env_ptr ∷ Ty.addr_ptr ∷ [];
  attributes = out 1 ++ into 3;
}

abbrev pub selfdestruct_decl : FuncDecl
selfdestruct_decl = record {
  name = "evm.selfdestruct";
  ret = Ty.void;
  params = Ty.env_ptr ∷ Ty.addr_ptr ∷ Ty.addr_ptr ∷ [];
  attributes = into 2 ++ into 3;
}

abbrev pub log_decl : FuncDecl
log_decl = record {
  name = "evm.log";
  ret = Ty.void;
  params = Ty.env_ptr ∷ Ty.addr_ptr ∷ Ty.byte_ptr ∷ Ty.size ∷ Ty.word_ptr ∷ Ty.size ∷ [];
  attributes = into 3 ++ into 5;
}

-- The parameters that the host's function for calls and its wrapper share.
abbrev call_params : List Ty
call_params =
    Ty.env_ptr ∷ Ty.i32 ∷ Ty.gas ∷ Ty.addr_ptr ∷ Ty.word_ptr ∷ Ty.byte_ptr ∷ Ty.size ∷ Ty.byte_ptr
    ∷ Ty.size ∷ Ty.byte_ptr_ptr ∷ Ty.size_ptr ∷ []

-- The host's function behind the wrapper `call`.
abbrev pub call_decl : FuncDecl
call_decl = record {
  name = "evm.call";
  ret = Ty.gas;
  params = call_params;
  attributes =
      into 4
      ++ into 5
      ++ (6, Attribute.read_only) ∷ (6, Attribute.no_capture) ∷ (8, Attribute.no_capture) ∷ [];
}

-- The wrapper, which also gets the address of the contract and the depth of the call.
abbrev pub call_wrapper_decl : FuncDecl
call_wrapper_decl = record {
  name = "call";
  ret = Ty.gas;
  params = call_params ++ Ty.addr ∷ Ty.size ∷ [];
  attributes =
      into 4
      ++ into 5
      ++ (6, Attribute.read_only) ∷ (6, Attribute.no_capture) ∷ (8, Attribute.no_capture) ∷ [];
}

abbrev pub block_hash_decl : FuncDecl
block_hash_decl = record {
  name = "evm.blockhash";
  ret = Ty.void;
  params = Ty.word_ptr ∷ Ty.env_ptr ∷ Ty.i64 ∷ [];
  attributes = out 1;
}

abbrev pub tx_context_decl : FuncDecl
tx_context_decl = record {
  name = "evm.get_tx_context";
  ret = Ty.void;
  params = Ty.tx_ctx_ptr ∷ Ty.env_ptr ∷ [];
  attributes = [];
}
