-- ===== src/Jit/Symbols/Tests.antt =====
-- Names resolved on a platform that puts an underscore before symbols.
use Prim.Native.Char.{Char}
use Prim.Native.String.{String}
use evmjit.Prelude.{ℕ, ◌<◌, ◌≡◌, ◌≢◌, refl}
use evmjit.Jit.Symbols.{HostFunc, declared, find_symbol}
use evmjit.Jit.Symbols.Laws.{mangled, find_symbol-declared}

abbrev address : HostFunc → ℕ
address HostFunc.call = 4
address f = 3

abbrev find_in_process : String → ℕ
find_in_process name = 9

abbrev underscore : Char
underscore = "_"

finds_call : find_symbol address find_in_process underscore "_evm.call" ≡ 4
unfolding find_symbol
finds_call = refl

finds_malloc : find_symbol address find_in_process underscore "_malloc" ≡ 9
unfolding find_symbol
finds_malloc = refl

find_symbol-declared_example :
    ((f : HostFunc)
      → 0 < address f
      → find_symbol address find_in_process underscore (mangled underscore (declared f))
        ≡ address f)
    × ((name : String)
        → ((f : HostFunc) → name ≢ declared f)
        → find_symbol address find_in_process underscore (mangled underscore name) ≡ 9)
find_symbol-declared_example = find_symbol-declared address find_in_process underscore
