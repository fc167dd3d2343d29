-- ===== src/Compiler/Handlers/OnStack.antt =====
-- The code of an instruction on the global stack, through the local stack of its block.
use mathlib.Core.Option
use evmjit.Prelude.{
  ℕ, zero, suc, ◌+◌, ◌-◌, ◌≤◌, ◌<◌, ◌≡◌, refl, ap, ◌∙◌, inl, inr, true, false, List, [], ◌∷◌, ◌++◌,
  Option, some, length, length-append, get_elem?, get_elem?-append_left, get_elem?-le,
  set as set_elem, set-append_left, length-set, lt→ltb, Option-cases, arith,
}
use evmjit.Instruction.{Instruction}
use evmjit.Compiler.Blocks.{BasicBlock}
use evmjit.Compiler.Emit.{Emit, done, popping, pushing, dupping, swapping, ask, tell}
use evmjit.Compiler.Handlers.{emit_instruction}
use evmjit.Compiler.Handlers.Arity.{
  Takes, stack_effect, is_defined, HasNumber, emit_instruction-Takes,
}
use evmjit.Compiler.Handlers.Control.{pop_topics}
use evmjit.Compiler.Setting.{Setting}
use evmjit.LocalStack.Program.{Program, push_word, dup_word, swap_words, run_calls}
use evmjit.LocalStack.Finalize.{run_block}
use evmjit.LocalStack.View.{stack_of}
use evmjit.LocalStack.Refines.{run_block-run_calls}

-- The calls on the stack on the path where the queries have these answers, one after the other. SWAPn is
-- the call `swap(n)`, which `Program` counts from 0.
unfoldable pub program_of : (ℕ → ℕ) → Emit → Program ℕ
program_of answers (done it) = Program.done
program_of answers (popping e) = Program.popping λ v. program_of answers (e v)
program_of answers (pushing v e) = Program.pushing v (program_of answers e)
program_of answers (dupping i e) = Program.dupping i (program_of answers e)
program_of answers (swapping i e) = Program.swapping (i - 1) (program_of answers e)
program_of answers (ask q e) = program_of (λ n. answers (suc n)) (e (answers 0))
program_of answers (tell f e) = program_of answers e

-- On every path, with `have` items on the stack, no push makes more of them than `most`, and no item is
-- swapped with itself.
abbrev StaysLow : ℕ → ℕ → Emit → Type 0
StaysLow most have (done it) = Unit
StaysLow most have (popping e) = (v : ℕ) → StaysLow most (have - 1) (e v)
StaysLow most have (pushing v e) = (have < most) × StaysLow most (suc have) e
StaysLow most have (dupping i e) = (have < most) × StaysLow most (suc have) e
StaysLow most have (swapping i e) = (0 < i) × StaysLow most have e
StaysLow most have (ask q e) = (v : ℕ) → StaysLow most have (e v)
StaysLow most have (tell f e) = StaysLow most have e

pop_topics-StaysLow :
    (n most : ℕ) (k : List ℕ → Emit)
    → ((ts : List ℕ) → StaysLow most 0 (k ts))
    → StaysLow most n (pop_topics n k)
unfolding pop_topics
pop_topics-StaysLow zero most k rest = rest []
pop_topics-StaysLow (suc n) most k rest = λ t.
    let e : suc n - 1 ≡ n = omega arith in
    rw e (pop_topics-StaysLow n most (λ ts. k (t ∷ ts)) λ ts. rest (t ∷ ts))

emit_instruction-StaysLow :
    (s : Setting) (block : BasicBlock) (inst : Instruction) (it : ℕ)
    → is_defined s inst ≡ true
    → HasNumber inst
    → StaysLow (stack_effect inst).1 (stack_effect inst).0 (emit_instruction s block inst it)
unfolding emit_instruction
emit_instruction-StaysLow s block (Instruction.log n) it defined number =
    let writes : s.static_call ≡ false = ground arith in
    rw writes (λ begin_idx num_bytes.
      let e : suc (suc n) - 1 - 1 ≡ n = omega arith in
      rw e (pop_topics-StaysLow n 0 _ λ ts my_addr. tt))
emit_instruction-StaysLow s block inst it defined number = ground arith

-- What a stack of items and others below them becomes: new items above the same others.
abbrev Above : ℕ → List ℕ → Option (List ℕ) → Type 0
Above leave below o = (top : List ℕ) × (length top ≡ leave) × (o ≡ some (top ++ below))

push_lem :
    (v most : ℕ) (top below : List ℕ)
    → length top < most
    → length below + most ≤ 1024
    → push_word v (top ++ below) ≡ some (v ∷ top ++ below)
unfolding push_word
push_lem v most top below low room =
    rw (lt→ltb (length (top ++ below)) 1024 (omega (arith, length-append top below))) refl

there_is :
    (top below : List ℕ) (i : ℕ)
    → i < length top
    → (w : ℕ) × (get_elem? (top ++ below) i ≡ some w) × (get_elem? top i ≡ some w)
there_is top below i inside = elim (Option-cases (get_elem? top i)) [
  | inl missing ↦ absurd (omega (arith, get_elem?-le top i missing))
  | inr (w, found) ↦ (w, get_elem?-append_left top below i inside ∙ found, found)
]

dup_lem :
    (i most : ℕ) (top below : List ℕ)
    → i < length top
    → length top < most
    → length below + most ≤ 1024
    → (w : ℕ) × (dup_word i (top ++ below) ≡ some (w ∷ top ++ below))
unfolding dup_word
dup_lem i most top below inside low room =
    let (w, found, _) = there_is top below i inside in
    (w, rw (found, dup_word) (push_lem w most top below low room))

swap_lem :
    (i : ℕ) (top below : List ℕ)
    → i < length top
    → 0 < i
    → (top' : List ℕ) × (length top' ≡ length top)
      × (swap_words (i - 1) (top ++ below) ≡ some (top' ++ below))
unfolding swap_words
swap_lem i [] below inside positive = absurd (omega arith)
swap_lem i (t ∷ top) below inside positive =
    let (w, found, _) = there_is top below (i - 1) (omega arith) in
    (
      w ∷ set_elem top (i - 1) t,
      ap suc (length-set top (i - 1) t),
      rw (found, swap_words)
          (ap (λ xs. some (w ∷ xs)) (set-append_left top below (i - 1) t (omega arith))),
    )

module _ (most leave : ℕ) (below : List ℕ) (room : length below + most ≤ 1024) where
  run_calls-Above :
      (e : Emit) (answers : ℕ → ℕ) (top : List ℕ)
      → Takes (length top) leave e
      → StaysLow most (length top) e
      → Above leave below (run_calls (program_of answers e) (top ++ below))
  unfolding run_calls program_of
  run_calls-Above (done it) answers top takes low = (top, takes, refl)
  run_calls-Above (popping e) answers [] takes low = absurd takes
  run_calls-Above (popping e) answers (v ∷ top) takes low =
      let n : suc (length top) - 1 ≡ length top = omega arith in
      run_calls-Above (e v) answers top (takes v) (rw n at (low v))
  run_calls-Above (pushing v e) answers top takes (small, low) =
      rw (push_lem v most top below small room) (run_calls-Above e answers (v ∷ top) takes low)
  run_calls-Above (dupping i e) answers top (inside, takes) (small, low) =
      let (w, dupped) = dup_lem i most top below inside small room in
      rw dupped (run_calls-Above e answers (w ∷ top) takes low)
  run_calls-Above (swapping i e) answers top (inside, takes) (positive, low) =
      let (top', same, swapped) = swap_lem i top below inside positive in
      rw swapped (run_calls-Above e answers top' (rw same takes) (rw same low))
  run_calls-Above (ask q e) answers top takes low =
      run_calls-Above (e (answers 0)) (λ n. answers (suc n)) top (takes (answers 0))
        (low (answers 0))
  run_calls-Above (tell f e) answers top takes low = run_calls-Above e answers top takes low

-- The code of a defined instruction, compiled on the local stack of a block of its own, does not abort on a
-- global stack with the items that the instruction takes and room for those that it leaves, whatever the host
-- and the environment answer: it puts as many items as it leaves in the place of those, and the items below
-- stay as they were.
pub emit_instruction-run_block :
    (s : Setting) (block : BasicBlock) (inst : Instruction) (it : ℕ) (answers : ℕ → ℕ)
    (memory : ℕ → ℕ) (n : ℕ) (top below : List ℕ)
    → is_defined s inst ≡ true
    → HasNumber inst
    → n ≤ 1024
    → stack_of memory n ≡ top ++ below
    → length top ≡ (stack_effect inst).0
    → length below + (stack_effect inst).1 ≤ 1024
    → (top' : List ℕ) × (length top' ≡ (stack_effect inst).1)
      × (Option.map
            (λ (r : (ℕ → ℕ) × ℕ). stack_of r.0 r.1)
            (run_block (program_of answers (emit_instruction s block inst it)) memory n)
          ≡ some (top' ++ below))
emit_instruction-run_block s block inst it answers memory n top below defined number limit holds
      takes room =
    let e : Emit = emit_instruction s block inst it in
    let arity : Takes (length top) (stack_effect inst).1 e =
      rw takes (emit_instruction-Takes s block inst it defined number) in
    let low : StaysLow (stack_effect inst).1 (length top) e =
      rw takes (emit_instruction-StaysLow s block inst it defined number) in
    let (top', leaves, ran) =
      run_calls-Above (stack_effect inst).1 (stack_effect inst).1 below room e answers top arity
        low in
    (
      top',
      leaves,
      run_block-run_calls (program_of answers e) memory n limit
          ∙ ap (run_calls (program_of answers e)) holds
          ∙ ran,
    )
