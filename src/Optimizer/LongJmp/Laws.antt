-- ===== src/Optimizer/LongJmp/Laws.antt =====
-- The pass against runs of the main function.
use evmjit.Prelude.{
  ℕ, zero, suc, ◌+◌, ◌⊎◌, ◌≡◌, refl, sym, ap, ◌∙◌, true, false, ◌++◌, Option, none, some, inl, inr,
  get_elem?, Bool-cases, Option-cases, All, arith, if◌then◌else◌,
}
use evmjit.Optimizer.LongJmp.{
  Target, Term, Block, MainFunc, abort_code, phi, run_on_function, next, exec,
}
use evmjit.Optimizer.LongJmp.Incoming.{
  is_unreachable, phi-append, lowered, eliminated, added, get_elem?-eliminated, code_for, phi-added,
  eliminated-All,
}
use mathlib.Core.Option

-- The main function as the compiler leaves it: the block "Abort" does nothing but exit with OutOfGas, and a
-- block that ends in `longjmp` is no predecessor of "Exit".
pub record IsMain {S : Type 0} (f : MainFunc S) (abort_bb : ℕ) : Type 0 where
  pub abort : Block S
  pub there : get_elem? f.blocks abort_bb ≡ some abort
  pub idle : (pred : ℕ) (s : S) → abort.body pred s ≡ s
  pub leaves : abort.term ≡ Term.branch Target.exit
  pub code : phi f.incoming abort_bb ≡ some abort_code
  pub fresh :
      (i : ℕ) (b : Block S)
      → get_elem? f.blocks i ≡ some b
      → b.term ≡ Term.unreachable
      → phi f.incoming i ≡ none

unreachable-eq : {S : Type 0} (t : Term S) → is_unreachable t ≡ true → t ≡ Term.unreachable
unreachable-eq Term.unreachable e = refl
unreachable-eq (Term.branch t) e = cc
unreachable-eq (Term.choose c t u) e = cc

Target-cases : (t : Target) → (t ≡ Target.exit) ⊎ ((j : ℕ) × (t ≡ Target.block j))
Target-cases Target.exit = inl refl
Target-cases (Target.block j) = inr (j, refl)

module _ {S : Type 0} (f : MainFunc S) (abort_bb : ℕ) (main : IsMain f abort_bb) where
  abbrev g : MainFunc S
  g = record f { blocks = eliminated 0 f.blocks; incoming = f.incoming ++ added 0 f.blocks }

  abbrev run_f : ℕ → Target → ℕ → S → Option (ℕ × S)
  run_f pred t fuel s = exec abort_bb f pred t fuel s

  abbrev run_g : ℕ → Target → ℕ → S → Option (ℕ × S)
  run_g pred t fuel s = exec abort_bb g pred t fuel s

  phi-g :
      (i : ℕ) (b : Block S)
      → get_elem? f.blocks i ≡ some b
      → phi g.incoming i ≡ (if is_unreachable b.term then some abort_code else phi f.incoming i)
  phi-g i b at =
      let new : phi (added 0 f.blocks) i ≡ code_for (some b) =
        let e : 0 + i ≡ i = omega arith in rw e at (phi-added 0 f.blocks i) ∙ ap code_for at in
      elim (Bool-cases (is_unreachable b.term)) [
        | inl aborts ↦
            let none_yet = main.fresh i b at (unreachable-eq b.term aborts) in
            ground (arith, phi-append f.incoming (added 0 f.blocks) i, new, none_yet)
        | inr goes_on ↦ ground (arith, phi-append f.incoming (added 0 f.blocks) i, new)
      ]

  step_f :
      (pred i fuel : ℕ) (s : S) (b : Block S)
      → get_elem? f.blocks i ≡ some b
      → run_f pred (Target.block i) (suc fuel) s
        ≡ run_f i (next abort_bb b.term (b.body pred s)) fuel (b.body pred s)
  unfolding exec
  step_f pred i fuel s b at = rw (at, exec)

  step_g :
      (pred i fuel : ℕ) (s : S) (b : Block S)
      → get_elem? f.blocks i ≡ some b
      → run_g pred (Target.block i) (suc fuel) s ≡ (
          if is_unreachable b.term
          then run_g i Target.exit fuel (b.body pred s)
          else run_g i (next abort_bb b.term (b.body pred s)) fuel (b.body pred s))
  unfolding exec next
  step_g pred i fuel s b at = elim (Bool-cases (is_unreachable b.term)) [
    | inl aborts ↦
        let changed = get_elem?-eliminated 0 f.blocks i ∙ ap (Option.map lowered) at in
        rw aborts (rw (changed, exec) (rw aborts refl))
    | inr goes_on ↦
        let changed = get_elem?-eliminated 0 f.blocks i ∙ ap (Option.map lowered) at in
        rw goes_on (rw (changed, exec) (rw goes_on refl))
  ]

  abort_f :
      (pred fuel : ℕ) (s : S)
      → run_f pred (Target.block abort_bb) (suc fuel) s ≡ some (abort_code, f.exit_body s)
  unfolding exec next
  abort_f pred fuel s =
      step_f pred abort_bb fuel s main.abort main.there
      ∙ rw (main.idle pred s, main.leaves) (rw main.code refl)

  exit_g :
      (i fuel : ℕ) (s : S) (b : Block S)
      → get_elem? f.blocks i ≡ some b
      → is_unreachable b.term ≡ true
      → run_g i Target.exit fuel s ≡ some (abort_code, f.exit_body s)
  unfolding exec
  exit_g i fuel s b at aborts = rw (phi-g i b at, aborts)

  no_fuel : {r : ℕ × S} → none ≡ some r → ⊥
  no_fuel e = cc

  -- From a block that goes on, where a run to "Exit" finds the same code.
  onward :
      (i : ℕ) (b : Block S)
      → get_elem? f.blocks i ≡ some b
      → is_unreachable b.term ≡ false
      → (t : Target) (fuel : ℕ) (s : S) → t ≡ Target.exit
      → run_g i t fuel s ≡ run_f i t fuel s
  unfolding exec
  onward i b at goes_on t fuel s out = rw out (rw (phi-g i b at, goes_on) refl)

  -- "Exit" takes no fuel.
  exit_any :
      (i : ℕ) (t : Target) (fuel : ℕ) (s : S)
      → t ≡ Target.exit
      → run_g i t (suc fuel) s ≡ run_g i t fuel s
  unfolding exec
  exit_any i t fuel s out = rw out refl

  missing_f :
      (pred i fuel : ℕ) (s : S)
      → get_elem? f.blocks i ≡ none
      → run_f pred (Target.block i) fuel s ≡ none
  unfolding exec
  missing_f pred i zero s missing = refl
  missing_f pred i (suc fuel) s missing = rw (missing, exec)

  missing_g :
      (pred i fuel : ℕ) (s : S)
      → get_elem? f.blocks i ≡ none
      → run_g pred (Target.block i) fuel s ≡ none
  unfolding exec
  missing_g pred i zero s missing = refl
  missing_g pred i (suc fuel) s missing =
      let changed = get_elem?-eliminated 0 f.blocks i ∙ ap (Option.map lowered) missing in
      rw (changed, exec)

  empty_f : (pred i : ℕ) (s : S) → run_f pred (Target.block i) zero s ≡ none
  unfolding exec
  empty_f pred i s = refl

  empty_g : (pred i : ℕ) (s : S) → run_g pred (Target.block i) zero s ≡ none
  unfolding exec
  empty_g pred i s = refl

  abort_result :
      (fuel pred : ℕ) (s : S) {r : ℕ × S}
      → run_f pred (Target.block abort_bb) fuel s ≡ some r
      → some (abort_code, f.exit_body s) ≡ some r
  abort_result zero pred s h = absurd (no_fuel (sym (empty_f pred abort_bb s) ∙ h))
  abort_result (suc fuel) pred s h = sym (abort_f pred fuel s) ∙ h

  jumps_to_abort :
      (b : Block S) (s : S)
      → is_unreachable b.term ≡ true
      → next abort_bb b.term s ≡ Target.block abort_bb
  unfolding next
  jumps_to_abort b s aborts = rw (unreachable-eq b.term aborts) refl

  forward :
      (fuel pred i : ℕ) (s : S) {r : ℕ × S}
      → run_f pred (Target.block i) fuel s ≡ some r
      → run_g pred (Target.block i) fuel s ≡ some r
  forward zero pred i s h = absurd (no_fuel (sym (empty_f pred i s) ∙ h))
  forward (suc fuel) pred i s {r} h = elim (Option-cases (get_elem? f.blocks i)) [
    | inl missing ↦ absurd (no_fuel (sym (missing_f pred i (suc fuel) s missing) ∙ h))
    | inr (b, at) ↦
        let s' : S = b.body pred s in
        let t : Target = next abort_bb b.term s' in
        let on : run_f i t fuel s' ≡ some r = sym (step_f pred i fuel s b at) ∙ h in
        elim (Bool-cases (is_unreachable b.term)) [
          | inl aborts ↦
              let on' : run_f i (Target.block abort_bb) fuel s' ≡ some r =
                rw (jumps_to_abort b s' aborts) at on in
              step_g pred i fuel s b at
              ∙ rw aborts (exit_g i fuel s' b at aborts ∙ abort_result fuel i s' on')
          | inr goes_on ↦
              step_g pred i fuel s b at
              ∙ rw goes_on (elim (Target-cases t) [
                | inl out ↦ onward i b at goes_on t fuel s' out ∙ on
                | inr (j, into) ↦ rw into (forward fuel i j s' (rw into at on))
              ])
        ]
  ]

  backward :
      (fuel pred i : ℕ) (s : S) {r : ℕ × S}
      → run_g pred (Target.block i) fuel s ≡ some r
      → run_f pred (Target.block i) (suc fuel) s ≡ some r
  backward zero pred i s h = absurd (no_fuel (sym (empty_g pred i s) ∙ h))
  backward (suc fuel) pred i s {r} h = elim (Option-cases (get_elem? f.blocks i)) [
    | inl missing ↦ absurd (no_fuel (sym (missing_g pred i (suc fuel) s missing) ∙ h))
    | inr (b, at) ↦
        let s' : S = b.body pred s in
        let t : Target = next abort_bb b.term s' in
        let on = sym (step_g pred i fuel s b at) ∙ h in
        elim (Bool-cases (is_unreachable b.term)) [
          | inl aborts ↦
              step_f pred i (suc fuel) s b at
              ∙ rw (jumps_to_abort b s' aborts)
                  (abort_f i fuel s' ∙ sym (exit_g i fuel s' b at aborts) ∙ rw aborts at on)
          | inr goes_on ↦
              let on' : run_g i t fuel s' ≡ some r = rw goes_on at on in
              step_f pred i (suc fuel) s b at ∙ elim (Target-cases t) [
                | inl out ↦
                    sym (onward i b at goes_on t (suc fuel) s' out) ∙ exit_any i t fuel s' out ∙ on'
                | inr (j, into) ↦ rw into (backward fuel i j s' (rw into at on'))
              ]
        ]
  ]

-- The pass leaves no block that ends in a `longjmp`, and the main function returns a code with the same
-- variables from every block on exactly where it did before: in no more rounds than before, and before in
-- one round more at most. This holds where the block "Abort" does nothing but exit with OutOfGas, and
-- where no block that ends in a `longjmp` is a predecessor of "Exit".
pub run_on_function-exec :
    {S : Type 0} (f : MainFunc S) (abort_bb : ℕ)
    → IsMain f abort_bb
    → let f' = (run_on_function true f).0 in
      All (λ b. is_unreachable b.term ≡ false) f'.blocks
      × ((fuel pred i : ℕ) (s : S) (r : ℕ × S)
          → (exec abort_bb f pred (Target.block i) fuel s ≡ some r
              → exec abort_bb f' pred (Target.block i) fuel s ≡ some r)
            × (exec abort_bb f' pred (Target.block i) fuel s ≡ some r
                → exec abort_bb f pred (Target.block i) (suc fuel) s ≡ some r))
unfolding run_on_function
run_on_function-exec f abort_bb main = (
  eliminated-All 0 f.blocks,
  λ fuel pred i s r.
      (forward f abort_bb main fuel pred i s, backward f abort_bb main fuel pred i s),
)
