-- ===== src/Compiler/Main/Tests.antt =====
-- A run of a main function with two code blocks.
use evmjit.Prelude.{
  ℕ, suc, zero, ◌≡◌, ◌==◌, refl, List, [], ◌∷◌, Option, some, false, if◌then◌else◌, get_elem?,
}
use evmjit.Compiler.Blocks.{BasicBlock}
use evmjit.Compiler.Jumps.{Terminator, resolve_jumps, resolve_from, find_case, table_cases}
use evmjit.Compiler.Jumps.Flow.{Fits}
use evmjit.Compiler.Jumps.Tests.{
  branching, first_block, second_block, to_1, branching_blocks, first_block-Fits,
}
use evmjit.Compiler.Main.{Ended, run_main, start_main}
use evmjit.Compiler.Main.Refines.{start_evm, start_main-start_evm}
use mathlib.Core.Bool.{false≢true}
use mathlib.Core.Path.{subst}

abbrev blocks : List BasicBlock
blocks = first_block ∷ second_block ∷ []

abbrev terms : List (Option Terminator)
terms = to_1 ∷ some Terminator.leave ∷ []

abbrev section : ℕ → ℕ × Option Terminator
section pc = if pc == 0 then (1, to_1) else (3, some Terminator.leave)

-- The condition is 5, so the JUMPI goes to the block that STOP leaves.
jumps_and_stops :
    start_main branching blocks terms (λ n v. 5) (λ n. false) 2 ≡ some (Ended.leaves_at 3)
unfolding start_main run_main resolve_jumps resolve_from find_case table_cases
jumps_and_stops = refl

abbrev Compiled : ℕ → BasicBlock → Type 0
Compiled i b =
    (t : Option Terminator) × (get_elem? terms i ≡ some t)
    × (section b.first_instr_idx ≡ (b.end, t))
    × Fits branching b t

compiled : (i : ℕ) (b : BasicBlock) → get_elem? blocks i ≡ some b → Compiled i b
compiled zero b at =
    let same : first_block ≡ b = cc in subst (Compiled 0) same (to_1, refl, refl, first_block-Fits)
compiled (suc zero) b at =
    let same : second_block ≡ b = cc in
    subst (Compiled 1) same
      (some Terminator.leave, refl, refl, λ last straight e falls. absurd (false≢true falls))
compiled (suc (suc i)) b at = cc

start_main-start_evm_example :
    start_main branching blocks terms (λ n v. 5) (λ n. false) 2
    ≡ start_evm branching section (λ n v. 5) (λ n. false) 2
start_main-start_evm_example =
    start_main-start_evm branching blocks terms section (λ n v. 5) (λ n. false)
      (record { created = branching_blocks; sized = refl; compiled = compiled }) 2
