-- ===== src/LocalStack/Program.antt =====
-- What a basic block asks of its stack, and how that runs: on the local stack with `finalize` at the
-- end, and directly on a stack of words, as the EVM is specified.
use evmjit.Prelude.{
  ℕ, ◌+◌, List, [], ◌∷◌, Option, none, some, length, get_elem?, set as set_elem, ltb, ◌>>=◌,
  if◌then◌else◌,
}
use evmjit.LocalStack.{LocalStack, push, pop, dup, swap, stack_size_limit}

-- The calls that the instructions of a block make on `stack`, in order. What is pushed may depend on
-- what has been popped.
pub data Program (V : Type 0) : Type 0 where
  done : Program V
  pushing : V → Program V → Program V
  popping : (V → Program V) → Program V
  dupping swapping : ℕ → Program V → Program V

module _ {V : Type 0} where
  -- The calls on the local stack. `swapping i` is `swap(i + 1)`: the index of `swap` is not 0.
  unfoldable pub compile_calls : (ℕ → V) → Program V → LocalStack V → LocalStack V
  compile_calls load done s = s
  compile_calls load (pushing v rest) s = compile_calls load rest (push v s)
  compile_calls load (popping rest) s = compile_calls load (rest (pop load s).0) (pop load s).1
  compile_calls load (dupping i rest) s = compile_calls load rest (dup load i s)
  compile_calls load (swapping i rest) s = compile_calls load rest (swap load (i + 1) s)

  -- A push on a stack of at most 1024 words.
  unfoldable pub push_word : V → List V → Option (List V)
  push_word v stack = if ltb (length stack) stack_size_limit then some (v ∷ stack) else none

  unfoldable pub dup_word : ℕ → List V → Option (List V)
  dup_word i stack = elim (get_elem? stack i) [ none ↦ none | some v ↦ push_word v stack ]

  unfoldable pub swap_words : ℕ → List V → Option (List V)
  swap_words i [] = none
  swap_words i (top ∷ below) = elim (get_elem? below i) [
    | none ↦ none
    | some v ↦ some (v ∷ set_elem below i top)
  ]

  -- The same on a stack of words, top first: none where an item is missing or there is no room.
  unfoldable pub run_calls : Program V → List V → Option (List V)
  run_calls done stack = some stack
  run_calls (pushing v rest) stack = push_word v stack >>= run_calls rest
  run_calls (popping rest) [] = none
  run_calls (popping rest) (v ∷ stack) = run_calls (rest v) stack
  run_calls (dupping i rest) stack = dup_word i stack >>= run_calls rest
  run_calls (swapping i rest) stack = swap_words i stack >>= run_calls rest
