-- ===== src/Jit.antt =====
-- The interface of the JIT to its host: libevmjit/JIT.cpp. The state is the singleton `JITImpl`.
pub mod CodeId
pub mod Calls
pub mod Execute
pub mod Symbols
pub mod Engine
pub mod Options
mod Tests
use evmjit.Prelude.{
  ℕ, ◌+◌, ◌*◌, ◌/◌, ◌%◌, ◌^◌, Bool, true, false, List, [], ◌∷◌, ltb, ◌&&◌, ◌==◌, Option, none, some,
  if◌then◌else◌,
}

-- `evmc_revision`; the names are those that `toChar` tells apart.
pub data Revision : Type 0 where
  frontier homestead tangerine_whistle spurious_dragon byzantium constantinople : Revision

-- `evmc_call_kind`, and `EVM_STATICCALL`, which only the JIT knows.
pub data Kind : Type 0 where
  call delegatecall callcode create staticcall : Kind

-- `evmc_message`. The flag EVMC_STATIC is the only one.
pub record Message : Type 0 where
  pub destination : ℕ
  pub sender : ℕ
  pub value : ℕ
  pub input : List ℕ
  pub code_hash : List ℕ
  pub gas : ℕ
  pub depth : ℕ
  pub is_static : Bool
  pub kind : Kind

-- `evmc_status_code`, and what `evmc_result` holds. The output is the bytes.
pub data StatusCode : Type 0 where
  success failure revert rejected internal_error : StatusCode

pub record Result : Type 0 where
  pub status_code : StatusCode
  pub gas_left : ℕ
  pub output : List ℕ

-- The codes of characters, of `F`, `H` and so on.
unfoldable pub to_char : Revision → ℕ
to_char Revision.frontier = 70
to_char Revision.homestead = 72
to_char Revision.tangerine_whistle = 84
to_char Revision.spurious_dragon = 83
to_char Revision.byzantium = 66
to_char Revision.constantinople = 67

-- `CodeMapEntry`, with a function pointer or null.
pub record CodeMapEntry (F : Type 0) : Type 0 where
  pub func : Option F
  pub hits : ℕ

-- `JITImpl`. The map gives every key an entry, the default one where there is none; the memory
-- manager is its `m_totalMemorySize`.
pub record Jit (F : Type 0) : Type 0 where
  pub code_map : List ℕ → CodeMapEntry F
  pub host : Option ℕ
  pub current_msg : Option Message
  pub return_buffer : List ℕ
  pub code_buffer : List ℕ
  pub hit_threshold : ℕ
  pub total_memory_size : ℕ

abbrev pub hex_char : ℕ → ℕ
hex_char digit = if ltb digit 10 then 48 + digit else 87 + digit

-- The loop of `makeCodeId` over the bytes of the hash, and what it pushes behind them.
unfoldable pub make_code_id : List ℕ → Revision → Bool → List ℕ
make_code_id [] rev is_static = to_char rev ∷ (if is_static then 83 ∷ [] else [])
make_code_id (b ∷ code_hash) rev is_static =
    hex_char (b / 2 ^ 4) ∷ hex_char (b % 2 ^ 4) ∷ make_code_id code_hash rev is_static

abbrev pub same_id : List ℕ → List ℕ → Bool
same_id [] [] = true
same_id (a ∷ id) (b ∷ id') = (a == b) && same_id id id'
same_id _ _ = false

module _ {F : Type 0} where
  abbrev pub empty_entry : CodeMapEntry F
  empty_entry = record { func = none; hits = 0 }

  abbrev update : List ℕ → CodeMapEntry F → (List ℕ → CodeMapEntry F) → List ℕ → CodeMapEntry F
  update id entry code_map = λ id'. if same_id id' id then entry else code_map id'

  unfoldable pub get_exec_func : List ℕ → Jit F → CodeMapEntry F × Jit F
  get_exec_func id jit =
      let old = jit.code_map id in
      let entry : CodeMapEntry F = record old { hits = (old.hits + 1) % 2 ^ 64 } in
      (entry, record jit { code_map = update id entry jit.code_map })

  unfoldable pub map_exec_func : List ℕ → F → Jit F → Jit F
  map_exec_func id func jit =
      let entry : CodeMapEntry F = record (jit.code_map id) { func = some func } in
      record jit { code_map = update id entry jit.code_map }

  -- The engine is made anew, with a memory manager of its own.
  unfoldable pub check_memory_size : Jit F → Jit F
  check_memory_size jit =
      let memory_limit = 1000 * 1024 * 1024 in
      if ltb memory_limit jit.total_memory_size
      then record jit { code_map = (λ id. empty_entry); total_memory_size = 0 }
      else jit
