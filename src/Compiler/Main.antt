-- ===== src/Compiler/Main.antt =====
-- `Compiler::compile` of libevmjit/Compiler.cpp: the main function by its entry block, its code blocks and
-- its special blocks, and a run of it. What happens inside a code block is a parameter: in round `n`,
-- `values n` are its values at the end, and `aborts n` says whether it calls `longjmp` before that.
pub mod Refines
mod Tests
use evmjit.Prelude.{
  ℕ, zero, suc, ◌+◌, ◌==◌, Bool, true, false, List, Option, none, some, length, get_elem?,
  if◌then◌else◌, ◌>>=◌,
}
use evmjit.Compiler.Blocks.{BasicBlock}
use evmjit.Compiler.Emit.{ReturnCode}
use evmjit.Compiler.Jumps.{Place, Terminator, Branch, table_cases, resolve_jumps}
use evmjit.Compiler.Jumps.Laws.{taken, enter}
use mathlib.Core.Option

-- The successors of the entry block, by what `setjmp` has returned: the block behind it, which is "Stop"
-- where there is no code block, or "Abort".
abbrev pub entry_place : ℕ → ℕ → Place
entry_place count r =
    if r == 0
    then (if count == 0 then Place.stop_block else Place.code_block 0)
    else Place.abort_block

-- How the main function ends: with a code of a special block, or by an exit at the end of a code block.
pub data Ended : Type 0 where
  exits : ReturnCode → Ended
  leaves_at : ℕ → Ended

-- The code for the special blocks "Stop" and "Abort".
abbrev pub special_exit : Place → Option ReturnCode
special_exit Place.stop_block = some ReturnCode.stop
special_exit Place.abort_block = some ReturnCode.out_of_gas
special_exit _ = none

-- A block that goes on at a place: it ends there, or the run goes on with a code block.
abbrev pub arrive : Place → ℕ → (ℕ → Option Ended) → Option Ended
arrive (Place.code_block j) end run = run j
arrive Place.exit_block end run = some (Ended.leaves_at end)
arrive place end run = Option.map Ended.exits (special_exit place)

module _ (code : List ℕ) (bs : List BasicBlock) (terms : List (Option Terminator))
    (values : ℕ → ℕ → ℕ) (aborts : ℕ → Bool) where
  -- The place behind code block `i`. A `longjmp` comes back out of `setjmp` with a value other than 0.
  abbrev pub place_after : ℕ → ℕ → Option Place
  place_after n i =
      if aborts n
      then some (entry_place (length bs) 1)
      else (let (branches, incoming) = resolve_jumps (table_cases code 0 bs) terms in
          get_elem? branches i >>= λ branch.
          enter (table_cases code 0 bs) (values n) incoming i (taken (values n) branch))

  -- A run from code block `i` on, in round `n`.
  unfoldable pub run_main : ℕ → ℕ → ℕ → Option Ended
  run_main zero n i = none
  run_main (suc fuel) n i = get_elem? bs i >>= λ b.
      place_after n i >>= λ place. arrive place b.end (run_main fuel (n + 1))

  unfoldable pub start_main : ℕ → Option Ended
  start_main fuel = arrive (entry_place (length bs) 0) 0 (run_main fuel 0)
