-- ===== src/Array/Tests.antt =====
-- Arrays at concrete elements, with a `realloc` that keeps everything.
use evmjit.Prelude.{ℕ, ◌+◌, ◌≡◌, refl, List, [], ◌∷◌}
use evmjit.Array.{Array, array_extend}
use evmjit.Array.Laws.{elements, first}
use evmjit.Array.Refines.{Op}

abbrev keep_all : (ℕ → ℕ) → ℕ → ℕ → ℕ
keep_all data_at bytes = data_at

abbrev two_words : Array
two_words = record { data_at = λ i. i + 7; size = 2; cap = 2 }

extends_with_zeros : elements (array_extend keep_all two_words 4) ≡ 7 ∷ 8 ∷ 0 ∷ 0 ∷ []
unfolding array_extend first
extends_with_zeros = refl

abbrev calls : List Op
calls = Op.push 5 ∷ Op.set_at 1 9 ∷ Op.pop 1 ∷ Op.get_at 1 ∷ Op.push 6 ∷ Op.size ∷ []
