-- ===== src/Compiler/Main/Refines.antt =====
-- The main function next to the EVM, which goes through the code by the index of its next instruction.
use evmjit.Prelude.{
  ℕ, zero, suc, ◌+◌, ◌≡◌, ◌==◌, refl, ap, sym, ◌∙◌, inl, inr, Bool, false, List, [], ◌∷◌, Option,
  none, some, length, get_elem?, if◌then◌else◌, ◌>>=◌, Bool-cases, arith, eqb_refl,
}
use evmjit.Compiler.Blocks.{BasicBlock, create_basic_blocks}
use evmjit.Compiler.Blocks.Adjacent.{
  AreAdjacent, StartAt, AreAdjacent-GoesOn, create_basic_blocks-AreAdjacent,
  create_basic_blocks-StartAt,
}
use evmjit.Compiler.Emit.{ReturnCode}
use evmjit.Compiler.Jumps.{Place, Terminator}
use evmjit.Compiler.Jumps.Flow.{Onward, onward, IsPlaceOf, Fits, resolve_jumps-onward}
use evmjit.Compiler.Main.{Ended, entry_place, arrive, place_after, run_main, start_main}

-- The code goes on: it stops behind its end, and fails at a destination that is not valid.
abbrev goes_on : List ℕ → Onward → ℕ → (ℕ → Option Ended) → Option Ended
goes_on code (Onward.at pc) end run =
    if pc == length code then some (Ended.exits ReturnCode.stop) else run pc
goes_on code Onward.leaves end run = some (Ended.leaves_at end)
goes_on code Onward.fails end run = some (Ended.exits ReturnCode.out_of_gas)

-- The instructions from an index on up to the next one that may go on elsewhere: `section pc` is the index
-- behind them and what they end with.
module _ (code : List ℕ) (section : ℕ → ℕ × Option Terminator) (values : ℕ → ℕ → ℕ)
    (aborts : ℕ → Bool) where
  -- The EVM from `pc` on: it fails where the gas runs out, and stops behind the end of the code.
  unfoldable pub run_evm : ℕ → ℕ → ℕ → Option Ended
  run_evm zero n pc = none
  run_evm (suc fuel) n pc =
      let (end, t) = section pc in
      if aborts n
      then some (Ended.exits ReturnCode.out_of_gas)
      else goes_on code (onward code (values n) end t) end (run_evm fuel (n + 1))

  unfoldable pub start_evm : ℕ → Option Ended
  start_evm fuel = goes_on code (Onward.at 0) 0 (run_evm fuel 0)

-- The terminators of the blocks, and the sections, are those of the last instructions.
pub record IsCompiled (code : List ℕ) (bs : List BasicBlock) (terms : List (Option Terminator))
    (section : ℕ → ℕ × Option Terminator) : Type 0 where
  pub created : create_basic_blocks code ≡ some bs
  pub sized : length terms ≡ length bs
  pub compiled :
      (i : ℕ) (b : BasicBlock)
      → get_elem? bs i ≡ some b
      → (t : Option Terminator) × (get_elem? terms i ≡ some t)
        × (section b.first_instr_idx ≡ (b.end, t))
        × Fits code b t

entry-IsPlaceOf :
    (code : List ℕ) (bs : List BasicBlock)
    → StartAt code 0 bs
    → AreAdjacent code bs
    → IsPlaceOf code bs (Onward.at 0) (entry_place (length bs) 0)
entry-IsPlaceOf code [] starts adjacent = inl (refl, starts)
entry-IsPlaceOf code (b ∷ bs) starts ((is, _), _) =
    inr (record {
      number = 0;
      block = b;
      there = ground arith;
      has = refl;
      starts = is.index ∙ starts;
    })

module _ (code : List ℕ) (bs : List BasicBlock) (terms : List (Option Terminator))
    (section : ℕ → ℕ × Option Terminator) (values : ℕ → ℕ → ℕ) (aborts : ℕ → Bool)
    (is : IsCompiled code bs terms section) where
  -- The test for the end of the code tells the block "Stop" from a code block.
  before_end :
      (i : ℕ) (b : BasicBlock)
      → get_elem? bs i ≡ some b
      → (b.first_instr_idx == length code) ≡ false
  before_end i b at =
      let (shape, _) =
        AreAdjacent-GoesOn code bs i b (create_basic_blocks-AreAdjacent code bs is.created) at in
      let inside = shape.order in let index = shape.index in ground arith

  IsPlaceOf-goes_on :
      (o : Onward) (place : Place) (end : ℕ) (run : ℕ → Option Ended) (run' : ℕ → Option Ended)
      → IsPlaceOf code bs o place
      → ((j : ℕ) (b : BasicBlock) → get_elem? bs j ≡ some b → run j ≡ run' b.first_instr_idx)
      → arrive place end run ≡ goes_on code o end run'
  IsPlaceOf-goes_on Onward.leaves place end run run' h same = rw h refl
  IsPlaceOf-goes_on Onward.fails place end run run' h same = rw h refl
  IsPlaceOf-goes_on (Onward.at pc) place end run run' (inl (stop, at_end)) same =
      rw (stop, at_end, eqb_refl (length code)) refl
  IsPlaceOf-goes_on (Onward.at pc) place end run run' (inr leads) same =
      let number : 0 + leads.number ≡ leads.number = omega arith in
      let inside : (pc == length code) ≡ false =
        sym (ap (λ p. p == length code) leads.starts)
        ∙ before_end leads.number leads.block leads.has in
      rw (leads.there, number, inside)
        (same leads.number leads.block leads.has ∙ ap run' leads.starts)

  place_after-goes_on :
      (n i : ℕ) (b : BasicBlock) (run run' : ℕ → Option Ended)
      → get_elem? bs i ≡ some b
      → ((j : ℕ) (b : BasicBlock) → get_elem? bs j ≡ some b → run j ≡ run' b.first_instr_idx)
      → (place_after code bs terms values aborts n i >>= λ place. arrive place b.end run) ≡ (
          let (end, t) = section b.first_instr_idx in
          if aborts n
          then some (Ended.exits ReturnCode.out_of_gas)
          else goes_on code (onward code (values n) end t) end run')
  place_after-goes_on n i b run run' at same =
      let (t, at_t, section_t, fits) = is.compiled i b at in
      let (branch, place, has, entered, at_place) =
        resolve_jumps-onward code bs terms (values n) i b t is.created is.sized at at_t fits in
      elim (Bool-cases (aborts n)) [
        | inl fails ↦ rw fails refl
        | inr runs ↦
            rw (runs, section_t, has, entered)
              (IsPlaceOf-goes_on (onward code (values n) b.end t) place b.end run run' at_place
                same)
      ]

  run_main-run_evm :
      (fuel n i : ℕ) (b : BasicBlock)
      → get_elem? bs i ≡ some b
      → run_main code bs terms values aborts fuel n i
        ≡ run_evm code section values aborts fuel n b.first_instr_idx
  unfolding run_main run_evm
  run_main-run_evm zero n i b at = refl
  run_main-run_evm (suc fuel) n i b at =
      rw at (place_after-goes_on n i b _ _ at (λ j b'. run_main-run_evm fuel (n + 1) j b'))

  -- Where each block has a terminator that its last instruction allows, and the EVM finds the same one
  -- behind the same instructions: in any number of rounds the main function does what the EVM does with
  -- the code: it ends at the same instruction, or with the same code, or has not ended yet. It stops where the code is empty or where it
  -- runs behind its end, and it fails with OutOfGas where a block runs out of gas and where a jump has no valid
  -- destination, whatever the values are in each round.
  pub start_main-start_evm :
      (fuel : ℕ)
      → start_main code bs terms values aborts fuel ≡ start_evm code section values aborts fuel
  unfolding start_main start_evm
  start_main-start_evm fuel =
      let starts = create_basic_blocks-StartAt code bs is.created in
      let adjacent = create_basic_blocks-AreAdjacent code bs is.created in
      IsPlaceOf-goes_on (Onward.at 0) (entry_place (length bs) 0) 0 _ _
        (entry-IsPlaceOf code bs starts adjacent) (λ j b at. run_main-run_evm fuel 0 j b at)
