-- ===== src/LocalStack/Tests.antt =====
-- Blocks of stack calls run on small global stacks, and the theorem at one of them.
use mathlib.Core.Option
use evmjit.Prelude.{ℕ, ◌+◌, ◌*◌, ◌≡◌, refl, List, [], ◌∷◌, Option, some, none, arith}
use evmjit.Prelude.Int.{min_ℤ, max_ℤ}
use evmjit.LocalStack.{push, pop, dup, swap, stack_prepare}
use evmjit.LocalStack.Program.{
  Program, done, pushing, popping, dupping, swapping, compile_calls, run_calls,
}
use evmjit.LocalStack.Finalize.{finalize, run_block}
use evmjit.LocalStack.View.{stack_of}
use evmjit.LocalStack.Refines.{run_block-run_calls}

-- SWAP2, ADD, DUP2, and a push of 7.
abbrev sample : Program ℕ
sample = swapping 1 (popping λ a. popping λ b. pushing (a + b) (dupping 1 (pushing 7 done)))

-- 30 on top, 10 at the bottom.
abbrev three_words : ℕ → ℕ
three_words slot = 10 * (slot + 1)

block_result : (program : Program ℕ) (n : ℕ) → Option (List ℕ)
unfolding run_block compile_calls finalize stack_prepare push pop dup swap stack_of min_ℤ max_ℤ
block_result program n =
    Option.map (λ (r : (ℕ → ℕ) × ℕ). stack_of r.0 r.1) (run_block program three_words n)

sample_result : block_result sample 3 ≡ some (7 ∷ 30 ∷ 30 ∷ 30 ∷ [])
unfolding block_result
sample_result = refl

sample_too_shallow : block_result sample 2 ≡ none
unfolding block_result
sample_too_shallow = refl

run_block-run_calls_example :
    Option.map (λ (r : (ℕ → ℕ) × ℕ). stack_of r.0 r.1) (run_block sample three_words 3)
    ≡ run_calls sample (stack_of three_words 3)
run_block-run_calls_example = run_block-run_calls sample three_words 3 (omega arith)
