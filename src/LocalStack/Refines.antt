-- ===== src/LocalStack/Refines.antt =====
-- A basic block run through the local stack against its calls on a plain stack of words.
use mathlib.Core.Option
use evmjit.Prelude.{
  ℕ, ◌+◌, ◌-◌, ◌≤◌, ◌≡◌, refl, sym, ap, ◌∙◌, inl, inr, List, [], ◌∷◌, true, false, Option, none,
  some, length, leb, Bool-cases, arith, if◌then◌else◌,
}
use evmjit.Prelude.Int.{ℤ, pos, negsuc, pos_part, neg_part, sub_ℕ, ◌+ℤ◌, leb_ℤ}
use evmjit.LocalStack.{LocalStack, empty, size, push, pop, dup, swap, stack_prepare, ule}
use evmjit.LocalStack.Program.{
  Program, done, pushing, popping, dupping, swapping, compile_calls, run_calls,
}
use evmjit.LocalStack.Finalize.{run_block}
use evmjit.LocalStack.View.{view, stack_of, held, IsSound}
use evmjit.LocalStack.Stored.{finalize-view, stack_of-from_index}
use evmjit.LocalStack.Steps.{
  fits, IsStep, IsStep-trans, fits_before, push-IsStep, push_lem, pop-IsStep, pop_lem,
}
use evmjit.LocalStack.Exchange.{dup-IsStep, dup_lem}
use evmjit.LocalStack.Swap.{swap-IsStep, swap_lem}

module _ {V : Type 0} (load : ℕ → V) (n : ℕ) where
  compile_calls-IsStep :
      (program : Program V) (s : LocalStack V) → IsSound s → IsStep s (compile_calls load program s)
  unfolding compile_calls
  compile_calls-IsStep done s ok = record { sound = ok; deeper = omega arith; higher = omega arith }
  compile_calls-IsStep (pushing v rest) s ok =
      let step = push-IsStep v s ok in IsStep-trans step (compile_calls-IsStep rest _ step.sound)
  compile_calls-IsStep (popping rest) s ok =
      let step = pop-IsStep load n s ok in
      IsStep-trans step (compile_calls-IsStep (rest (pop load s).0) _ step.sound)
  compile_calls-IsStep (dupping i rest) s ok =
      let step = dup-IsStep load n i s ok in
      IsStep-trans step (compile_calls-IsStep rest _ step.sound)
  compile_calls-IsStep (swapping i rest) s ok =
      let step = swap-IsStep load n i s ok in
      IsStep-trans step (compile_calls-IsStep rest _ step.sound)

  abbrev outcome : LocalStack V → Option (List V)
  outcome s = if fits n s then some (view load n s) else none

  -- A demand that is not met stays so to the end of the block.
  outcome-none :
      (program : Program V) (s : LocalStack V)
      → IsSound s
      → fits n s ≡ false
      → outcome (compile_calls load program s) ≡ none
  outcome-none program s ok unfit =
      rw (fits_before n s (compile_calls load program s) (compile_calls-IsStep program s ok) unfit)

  run_calls-view :
      (program : Program V) (s : LocalStack V)
      → IsSound s
      → fits n s ≡ true
      → run_calls program (view load n s) ≡ outcome (compile_calls load program s)
  unfolding run_calls compile_calls
  run_calls-view done s ok fit = rw fit
  run_calls-view (pushing v rest) s ok fit =
      let step = push-IsStep v s ok in
      elim (Bool-cases (fits n (push v s))) [
        | inl fit' ↦
            rw (push_lem load n v s ok fit, fit') (run_calls-view rest (push v s) step.sound fit')
        | inr unfit ↦
            rw (push_lem load n v s ok fit, unfit)
              (sym (outcome-none rest (push v s) step.sound unfit))
      ]
  run_calls-view (popping rest) s ok fit =
      let step = pop-IsStep load n s ok in
      let s' = (pop load s).1 in
      elim (Bool-cases (fits n s')) [
        | inl fit' ↦
            let top_first : view load n s ≡ (pop load s).0 ∷ view load n s' =
              rw fit' at (pop_lem load n s ok fit) in
            rw top_first (run_calls-view (rest (pop load s).0) s' step.sound fit')
        | inr unfit ↦
            let none_left : view load n s ≡ [] = rw unfit at (pop_lem load n s ok fit) in
            rw none_left (sym (outcome-none (rest (pop load s).0) s' step.sound unfit))
      ]
  run_calls-view (dupping i rest) s ok fit =
      let step = dup-IsStep load n i s ok in
      elim (Bool-cases (fits n (dup load i s))) [
        | inl fit' ↦
            rw (dup_lem load n i s ok fit, fit')
              (run_calls-view rest (dup load i s) step.sound fit')
        | inr unfit ↦
            rw (dup_lem load n i s ok fit, unfit)
              (sym (outcome-none rest (dup load i s) step.sound unfit))
      ]
  run_calls-view (swapping i rest) s ok fit =
      let step = swap-IsStep load n i s ok in
      elim (Bool-cases (fits n (swap load (i + 1) s))) [
        | inl fit' ↦
            rw (swap_lem load n i s ok fit, fit')
              (run_calls-view rest (swap load (i + 1) s) step.sound fit')
        | inr unfit ↦
            rw (swap_lem load n i s ok fit, unfit)
              (sym (outcome-none rest (swap load (i + 1) s) step.sound unfit))
      ]

deep_test : (n : ℕ) (min : ℤ) → leb_ℤ (pos 0) (pos n +ℤ min) ≡ leb (neg_part min) n
unfolding leb_ℤ ◌+ℤ◌
deep_test n (pos k) = ground arith
deep_test n (negsuc k) = ground arith

sum_pos : (n p : ℕ) → pos n +ℤ pos p ≡ pos (n + p)
unfolding ◌+ℤ◌
sum_pos n p = ground arith

sum_size : (n l gp : ℕ) → pos_part (pos n +ℤ sub_ℕ l gp) ≡ n + l - gp
unfolding ◌+ℤ◌
sum_size n l gp = ground arith

module _ {V : Type 0} where
  -- `stack.prepare` decides whether the global stack fits, and moves its size by that of the block.
  pub stack_prepare_lem :
      (n : ℕ) (s : LocalStack V)
      → IsSound s
      → stack_prepare n s.min_size s.max_size (size s)
        ≡ (if fits n s then some (n + length s.local - s.global_pops) else none)
  unfolding stack_prepare
  stack_prepare_lem n s ok =
      let p : ℕ = pos_part s.max_size in
      let room : ule (pos n +ℤ s.max_size) 1024 ≡ leb (n + p) 1024 =
        ap (λ m. ule (pos n +ℤ m) 1024) ok.peak ∙ ap (λ m. ule m 1024) (sum_pos n p) in
      rw (deep_test n s.min_size, room, sum_size n (length s.local) s.global_pops)

  empty-IsSound : IsSound {V = V} empty
  empty-IsSound = record { fetched = omega arith; popped = omega arith; peak = refl }

  view-empty :
      (memory : ℕ → V) (n : ℕ) → view (λ idx. memory (n - idx - 1)) n empty ≡ stack_of memory n
  unfolding view held
  view-empty memory n =
      let all : n - 0 ≡ n = omega arith in
      rw all (
        sym (
          stack_of-from_index (λ idx. memory (n - idx - 1)) memory n 0
            (λ i lt. ap (λ k. memory (n - k - 1)) (omega arith))))

  -- Whatever calls a basic block makes on its stack, the compiled block - one check of the global
  -- stack's size, the loads, and the stores of `finalize` - turns a global stack of at most 1024
  -- words into the stack that the calls make of it one by one, and aborts exactly if one of the
  -- calls finds an item missing or the stack full.
  pub run_block-run_calls :
      (program : Program V) (memory : ℕ → V) (n : ℕ)
      → n ≤ 1024
      → Option.map (λ (r : (ℕ → V) × ℕ). stack_of r.0 r.1) (run_block program memory n)
        ≡ run_calls program (stack_of memory n)
  unfolding run_block
  run_block-run_calls program memory n limit =
      let load : ℕ → V = λ idx. memory (n - idx - 1) in
      let s : LocalStack V = compile_calls load program empty in
      let step = compile_calls-IsStep load n program empty empty-IsSound in
      let started : fits n (empty {V = V}) ≡ true = ground arith in
      let run = run_calls-view load n program empty empty-IsSound started in
      rw (← view-empty memory n, run, stack_prepare_lem n s step.sound)
        (elim (Bool-cases (fits n s)) [
          | inl fit ↦
              let stored =
                finalize-view memory n s step.sound (ground (arith, step.sound.fetched, fit)) in
              rw (fit, stored)
          | inr unfit ↦ rw unfit
        ])
