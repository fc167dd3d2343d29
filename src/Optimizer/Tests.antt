-- ===== src/Optimizer/Tests.antt =====
-- The pass on a small block, with divisions that meet the language reference.
use mathlib.Core.List.{map}
use evmjit.Prelude.{ℕ, ◌/◌, ◌%◌, ◌≡◌, refl, true, false, List, [], ◌∷◌, arith}
use evmjit.Arith256.Division.Zeros.{leading_zeros, leading_zeros-CountsZeros}
use evmjit.Arith256.Signed.{sdiv, srem, word_of, sdiv_lem, srem_lem}
use evmjit.Optimizer.{Opcode, Inst, Func, Lowered, run_on_basic_block}
use evmjit.Optimizer.Laws.{Divides, eval, run_on_basic_block-llvm}

abbrev sample_llvm : Inst → ℕ → ℕ → ℕ
sample_llvm inst x y = elim inst.opcode [
  | Opcode.udiv ↦ x / y
  | Opcode.urem ↦ x % y
  | Opcode.sdiv ↦ sdiv (leading_zeros 256) x y
  | Opcode.srem ↦ srem (leading_zeros 256) x y
  | Opcode.other n ↦ n
]

sample_llvm-Divides : Divides sample_llvm
sample_llvm-Divides = record {
  udiv_law = λ w x y some_y. refl;
  urem_law = λ w x y some_y. refl;
  sdiv_law = λ s t m n hm hn some_n fits.
      sdiv_lem (leading_zeros 256) (leading_zeros-CountsZeros 256) s t m n hm hn some_n;
  srem_law = λ s t m n hm hn some_n fits.
      srem_lem (leading_zeros 256) (leading_zeros-CountsZeros 256) s t m n hm hn some_n;
}

-- A division of words, one of 64 bits, and a remainder of 512 bits.
abbrev block : List Inst
block =
    (record { opcode = Opcode.sdiv; width = 256 })
    ∷ (record { opcode = Opcode.udiv; width = 64 })
    ∷ (record { opcode = Opcode.urem; width = 512 })
    ∷ []

block_result : run_on_basic_block block ≡ (
  Lowered.called Func.sdiv256
      ∷ Lowered.kept (record { opcode = Opcode.udiv; width = 64 })
      ∷ Lowered.called Func.urem512
      ∷ [],
  true,
)
unfolding run_on_basic_block
block_result = refl

run_on_basic_block-llvm_example :
    map
      (λ lowered. eval sample_llvm leading_zeros lowered (word_of true 7) (word_of false 2))
      (run_on_basic_block block).0
    ≡ map (λ inst. sample_llvm inst (word_of true 7) (word_of false 2)) block
run_on_basic_block-llvm_example =
    run_on_basic_block-llvm sample_llvm sample_llvm-Divides leading_zeros leading_zeros-CountsZeros
      true false 7 2 (omega arith) (omega arith) (omega arith) (omega arith) block
