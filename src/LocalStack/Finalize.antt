-- ===== src/LocalStack/Finalize.antt =====
-- `LocalStack::finalize`, and a basic block on the global stack: `stack.prepare`, the loads, and the
-- stores at the end.
use mathlib.Core.List.{reverse}
use mathlib.Core.Option
use evmjit.Prelude.{
  ℕ, zero, suc, ◌+◌, ◌-◌, List, [], ◌∷◌, Option, none, some, length, ltb, ◌==◌, if◌then◌else◌,
}
use evmjit.LocalStack.{LocalStack, empty, size, stack_prepare}
use evmjit.LocalStack.Program.{Program, compile_calls}

module _ {V : Type 0} where
  -- A store into a slot of the global stack; slots are counted from its base.
  abbrev pub store : Option V → ℕ → (ℕ → V) → ℕ → V
  store none slot memory = memory
  store (some v) slot memory = λ j. if j == slot then v else memory j

  -- The loop: `rounds` values of `globalIdx` are left, the first one at `slot` (that is, `globalIdx`
  -- is `slot - size`). The iterators are what is left of the two sequences.
  unfoldable pub finalize_loop : ℕ → ℕ → ℕ → ℕ → List (Option V) → List V → (ℕ → V) → ℕ → V
  finalize_loop zero slot size global_pops input_it local_it memory = memory
  finalize_loop (suc rounds) slot size global_pops input_it local_it memory =
      if ltb (slot + global_pops) size
      then (elim input_it [
        | [] ↦ memory
        | item ∷ it ↦
            finalize_loop rounds (slot + 1) size global_pops it local_it (store item slot memory)
      ])
      else (elim local_it [
        | [] ↦ memory
        | item ∷ it ↦
            finalize_loop rounds (slot + 1) size global_pops input_it it
              (store (some item) slot memory)
      ])

  -- The stores for a global stack of the given size, from `-m_input.size()` up to the local size.
  -- `m_input.rbegin()` and `m_local.begin()` run from the bottom up.
  unfoldable pub finalize : LocalStack V → ℕ → (ℕ → V) → ℕ → V
  unfolding finalize_loop
  finalize s size memory =
      finalize_loop (length s.input + length s.local - s.global_pops) (size - length s.input) size
        s.global_pops (reverse s.input) (reverse s.local) memory

  -- A basic block run on a global stack of the given size: the memory and the size after it, or none
  -- where `stack.prepare` aborts.
  unfoldable pub run_block : Program V → (ℕ → V) → ℕ → Option ((ℕ → V) × ℕ)
  run_block program memory stack_size =
      let s = compile_calls (λ idx. memory (stack_size - idx - 1)) program empty in
      Option.map (λ new_size. (finalize s stack_size memory, new_size))
        (stack_prepare stack_size s.min_size s.max_size (size s))
