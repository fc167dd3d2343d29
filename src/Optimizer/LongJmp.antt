-- ===== src/Optimizer/LongJmp.antt =====
-- `LongJmpEliminationPass` of libevmjit/Optimizer.cpp. The main function is its blocks but for the last
-- one, "Exit", which returns the code that its PHI node has for the block that it was entered from. What
-- a block computes is a function of its predecessor and of the variables `S`. A block that ends in
-- `unreachable` ends in a call of `longjmp` before that.
pub mod Incoming
pub mod Laws
mod Tests
use evmjit.Prelude.{
  ℕ, zero, suc, ◌+◌, ◌-◌, ◌^◌, ◌==◌, ◌||◌, Bool, true, false, List, [], ◌∷◌, ◌++◌, Option, none,
  some, get_elem?, if◌then◌else◌,
}
use mathlib.Core.Option

pub data Target : Type 0 where
  block : ℕ → Target
  exit : Target

pub data Term (S : Type 0) : Type 0 where
  branch : Target → Term S
  choose : (S → Bool) → Target → Target → Term S
  unreachable : Term S

pub record Block (S : Type 0) : Type 0 where
  pub body : ℕ → S → S
  pub term : Term S

-- `incoming` are the codes of the PHI node, each with its predecessor.
pub record MainFunc (S : Type 0) : Type 0 where
  pub blocks : List (Block S)
  pub incoming : List (ℕ × ℕ)
  pub exit_body : S → S

-- `abortCode`: -1 as 32 bits.
abbrev pub abort_code : ℕ
abort_code = 2 ^ 32 - 1

-- The code for a predecessor.
unfoldable pub phi : List (ℕ × ℕ) → ℕ → Option ℕ
phi [] pred = none
phi ((code, from) ∷ incoming) pred = if from == pred then some code else phi incoming pred

module _ {S : Type 0} where
  -- One round of the loop: the block, the incoming value that it adds, and whether it is modified.
  unfoldable pub eliminate : ℕ → Block S → Block S × (List (ℕ × ℕ) × Bool)
  eliminate i b = elim b.term [
    | Term.unreachable ↦ (record b { term = Term.branch Target.exit }, ((abort_code, i) ∷ [], true))
    | Term.branch t ↦ (b, ([], false))
    | Term.choose c t u ↦ (b, ([], false))
  ]

  -- The loop over the blocks, from number `i` on.
  unfoldable pub eliminate_from : ℕ → List (Block S) → List (Block S) × (List (ℕ × ℕ) × Bool)
  eliminate_from i [] = ([], ([], false))
  eliminate_from i (b ∷ blocks) =
      let (b', (new, modified)) = eliminate i b in
      let (blocks', (added, any)) = eliminate_from (i + 1) blocks in
      (b' ∷ blocks', (new ++ added, modified || any))

  -- `runOnFunction`: only the first function of the module is the main function.
  unfoldable pub run_on_function : Bool → MainFunc S → MainFunc S × Bool
  run_on_function is_first f =
      let (blocks, (new, modified)) = eliminate_from 0 f.blocks in
      if is_first
      then (record f { blocks = blocks; incoming = f.incoming ++ new }, modified)
      else (f, false)

  -- Where a terminator leads: a `longjmp` goes back to the `setjmp` of the entry block, which branches to
  -- the block "Abort".
  unfoldable pub next : ℕ → Term S → S → Target
  next abort_bb (Term.branch t) s = t
  next abort_bb (Term.choose c t u) s = if c s then t else u
  next abort_bb Term.unreachable s = Target.block abort_bb

  -- A run from a block or from "Exit": the code that is returned and the variables, on fuel.
  unfoldable pub exec : ℕ → MainFunc S → ℕ → Target → ℕ → S → Option (ℕ × S)
  exec abort_bb f pred Target.exit fuel s =
      Option.map (λ code. (code, f.exit_body s)) (phi f.incoming pred)
  exec abort_bb f pred (Target.block i) zero s = none
  exec abort_bb f pred (Target.block i) (suc fuel) s = elim (get_elem? f.blocks i) [
    | none ↦ none
    | some b ↦ exec abort_bb f i (next abort_bb b.term (b.body pred s)) fuel (b.body pred s)
  ]
