-- ===== src/Jit/Options/Tests.antt =====
-- An option that is set, and code that is fetched.
use Prim.Native.String.{String}
use evmjit.Prelude.{ℕ, ◌≡◌, refl, List, [], ◌∷◌, Option, none, some}
use evmjit.Jit.{Jit, empty_entry}
use evmjit.Jit.Options.{set_option}

abbrev jit : Jit ℕ
jit = record {
  code_map = λ id. empty_entry;
  host = none;
  current_msg = none;
  return_buffer = [];
  code_buffer = 9 ∷ 9 ∷ 9 ∷ [];
  hit_threshold = 0;
  total_memory_size = 0;
}

abbrev stoul : String → Option ℕ
stoul value = some 5

sets_threshold : (set_option stoul "hits-threshold" "5" jit).1.hit_threshold ≡ 5
unfolding set_option
sets_threshold = refl

abbrev code_of : ℕ → List ℕ
code_of address = 0x60 ∷ address ∷ []
