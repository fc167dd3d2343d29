-- ===== src/Optimizer/LongJmp/Tests.antt =====
-- A main function with one block that runs out of gas.
use evmjit.Prelude.{
  ℕ, zero, suc, ◌+◌, ◌==◌, ◌≡◌, refl, ap, true, false, List, [], ◌∷◌, none, some, ◌*◌, get_elem?,
  All,
}
use mathlib.Core.Option
use evmjit.Optimizer.LongJmp.{
  Target, Term, Block, MainFunc, abort_code, phi, run_on_function, eliminate_from, eliminate, exec,
  next,
}
use evmjit.Optimizer.LongJmp.Incoming.{is_unreachable}
use evmjit.Optimizer.LongJmp.Laws.{IsMain, run_on_function-exec}

-- Block 0 goes to block 1 where the variable is 5, or else leaves; block 1 is cut off, block 2 is "Abort".
abbrev blocks : List (Block ℕ)
blocks =
    record { body = λ p s. s + 1; term = Term.choose (λ s. s == 5) (Target.block 1) Target.exit }
    ∷ record { body = λ p s. s + 10; term = Term.unreachable }
    ∷ record { body = λ p s. s; term = Term.branch Target.exit }
    ∷ []

abbrev main : MainFunc ℕ
main = record { blocks = blocks; incoming = (0, 0) ∷ (abort_code, 2) ∷ []; exit_body = λ s. s * 2 }

aborts : exec 2 main 9 (Target.block 0) 3 4 ≡ some (abort_code, 30)
unfolding exec next phi
aborts = refl

aborts_sooner : exec 2 (run_on_function true main).0 9 (Target.block 0) 2 4 ≡ some (abort_code, 30)
unfolding exec next phi run_on_function eliminate_from eliminate
aborts_sooner = refl

goes_on : (b : Block ℕ) → some false ≡ some (is_unreachable b.term) → b.term ≡ Term.unreachable → ⊥
goes_on b e ends = let e' = rw ends at e in cc

fresh :
    (i : ℕ) (b : Block ℕ)
    → get_elem? blocks i ≡ some b
    → b.term ≡ Term.unreachable
    → phi main.incoming i ≡ none
unfolding phi
fresh zero b at ends = absurd (goes_on b (ap (Option.map (λ b'. is_unreachable b'.term)) at) ends)
fresh (suc zero) b at ends = refl
fresh (suc (suc zero)) b at ends =
    absurd (goes_on b (ap (Option.map (λ b'. is_unreachable b'.term)) at) ends)
fresh (suc (suc (suc i))) b at ends = cc

main-IsMain : IsMain main 2
unfolding phi
main-IsMain = record {
  abort = record { body = λ p s. s; term = Term.branch Target.exit };
  there = refl;
  idle = λ p s. refl;
  leaves = refl;
  code = refl;
  fresh = fresh;
}

run_on_function-exec_example :
    let f' = (run_on_function true main).0 in
    All (λ b. is_unreachable b.term ≡ false) f'.blocks
    × ((fuel pred i s : ℕ) (r : ℕ × ℕ)
        → (exec 2 main pred (Target.block i) fuel s ≡ some r
            → exec 2 f' pred (Target.block i) fuel s ≡ some r)
          × (exec 2 f' pred (Target.block i) fuel s ≡ some r
              → exec 2 main pred (Target.block i) (suc fuel) s ≡ some r))
run_on_function-exec_example = run_on_function-exec main 2 main-IsMain
