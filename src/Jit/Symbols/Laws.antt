-- ===== src/Jit/Symbols/Laws.antt =====
-- The names that the compiler declares against those that the JIT resolves.
use Prim.Native.Char.{Char, code}
use Prim.Native.String.{String}
use text.Mathlib.Text.{◌==◌ as ◌str_eq◌}
use text.Mathlib.TextEquality.{eq_iff}
use evmjit.Prelude.{
  ℕ, ◌<◌, ◌==◌, ◌≡◌, ◌≢◌, inl, inr, refl, false, Bool-cases, eqb_refl, arith, if◌then◌else◌,
}
use evmjit.Jit.Symbols.{HostFunc, declared, unprefixed, host_address, find_symbol}

-- What LLVM makes of a name for the linker.
abbrev pub mangled : Char → String → String
mangled prefix name = if code prefix == 0 then name else String.◌∷◌ prefix name

-- A name on which the linker's prefix is put is found without it, whatever it starts with.
unprefixed-mangled :
    (prefix : Char) (name : String) → unprefixed prefix (mangled prefix name) ≡ name
unfolding unprefixed
unprefixed-mangled prefix String.[] = elim (Bool-cases (code prefix == 0)) [
  | inl bare ↦ rw bare refl
  | inr prefixed ↦ rw prefixed (rw (prefixed, eqb_refl (code prefix)) refl)
]
unprefixed-mangled prefix (String.◌∷◌ c name) = elim (Bool-cases (code prefix == 0)) [
  | inl bare ↦ rw bare (rw bare refl)
  | inr prefixed ↦ rw prefixed (rw (prefixed, eqb_refl (code prefix)) refl)
]

differs : (s t : String) → s ≢ t → (s str_eq t) ≡ false
differs s t h = elim (Bool-cases (s str_eq t)) [
  | inl same ↦ absurd (h ((eq_iff s t).0 same))
  | inr other ↦ other
]

module _ (address : HostFunc → ℕ) (find_in_process : String → ℕ) where
  host_address-declared :
      (f : HostFunc) → host_address address find_in_process (declared f) ≡ address f
  unfolding declared
  host_address-declared HostFunc.keccak = refl
  host_address-declared f = refl

  host_address-other :
      (name : String)
      → ((f : HostFunc) → name ≢ declared f)
      → host_address address find_in_process name ≡ 0
  unfolding declared
  host_address-other name other =
      rw
        (
          differs name (declared HostFunc.keccak) (other HostFunc.keccak),
          differs name (declared HostFunc.account_exists) (other HostFunc.account_exists),
          differs name (declared HostFunc.get_storage) (other HostFunc.get_storage),
          differs name (declared HostFunc.set_storage) (other HostFunc.set_storage),
          differs name (declared HostFunc.get_balance) (other HostFunc.get_balance),
          differs name (declared HostFunc.get_code_size) (other HostFunc.get_code_size),
          differs name (declared HostFunc.get_code) (other HostFunc.get_code),
          differs name (declared HostFunc.selfdestruct) (other HostFunc.selfdestruct),
          differs name (declared HostFunc.call) (other HostFunc.call),
          differs name (declared HostFunc.get_tx_context) (other HostFunc.get_tx_context),
          differs name (declared HostFunc.get_block_hash) (other HostFunc.get_block_hash),
          differs name (declared HostFunc.emit_log) (other HostFunc.emit_log),
        )
        refl

  -- The linker's search gives each function that the compiler declares the host's function, or the JIT's own,
  -- that it stands for, whatever prefix the platform has for symbols, where that function is not null; and a
  -- name that is none of them is searched for in the process as it stands.
  pub find_symbol-declared :
      (prefix : Char)
      → ((f : HostFunc)
          → 0 < address f
          → find_symbol address find_in_process prefix (mangled prefix (declared f)) ≡ address f)
        × ((name : String)
            → ((f : HostFunc) → name ≢ declared f)
            → find_symbol address find_in_process prefix (mangled prefix name)
              ≡ find_in_process (mangled prefix name))
  unfolding find_symbol
  find_symbol-declared prefix = (
    λ f there. rw (unprefixed-mangled prefix (declared f), host_address-declared f) (ground arith),
    λ name other. rw (unprefixed-mangled prefix name, host_address-other name other) refl,
  )
