-- ===== src/Compiler/Blocks/Walk.antt =====
-- The loop of `createBasicBlocks`: its fuel, and its run as a relation for inductions.
use evmjit.Prelude.{
  ℕ, zero, suc, ◌+◌, ◌≤◌, ◌<◌, ◌≡◌, inl, inr, List, [], Option, some, length, ◌==◌, Bool-cases,
  false, ==_iff, arith,
}
use evmjit.Compiler.Blocks.{
  BasicBlock, Scan, skip_push_data_and_get_next, round, emplace, scan_loop, create_basic_blocks,
}

-- An instruction inside the code is followed by one further on, or by the end.
pub next_bounds :
    (code : List ℕ) (curr : ℕ)
    → curr < length code
    → (curr < skip_push_data_and_get_next code curr)
      × (skip_push_data_and_get_next code curr ≤ length code)
unfolding skip_push_data_and_get_next
next_bounds code curr h = ground arith

-- The rounds from `curr` to the end of the code, and the blocks that they add.
pub data Rounds (code : List ℕ) : Scan → ℕ → List BasicBlock → Type 0 where
  finish : {s : Scan} {curr : ℕ} → curr ≡ length code → Rounds code s curr []
  go_on :
      {s : Scan} {curr : ℕ} {blocks : List BasicBlock}
      → curr < length code
      → Rounds code
          (round code s curr (skip_push_data_and_get_next code curr)).0
          (skip_push_data_and_get_next code curr)
          blocks
      → Rounds code s curr
          (emplace (round code s curr (skip_push_data_and_get_next code curr)).1 blocks)

abbrev pub Runs : List ℕ → Option (List BasicBlock) → Scan → ℕ → Type 0
Runs code result s curr =
    (blocks : List BasicBlock) × (result ≡ some blocks) × Rounds code s curr blocks

scan_loop-Rounds :
    (fuel : ℕ) (code : List ℕ) (s : Scan) (curr : ℕ)
    → curr ≤ length code
    → length code < fuel + curr
    → Runs code (scan_loop fuel code s curr) s curr
unfolding scan_loop
scan_loop-Rounds zero code s curr le enough = absurd (omega arith)
scan_loop-Rounds (suc fuel) code s curr le enough = elim (Bool-cases (curr == length code)) [
  | inl done ↦ ([], rw done, finish ((==_iff curr (length code)).0 done))
  | inr more ↦
      let inside : curr < length code = ground arith in
      let next = skip_push_data_and_get_next code curr in
      let bounds = next_bounds code curr inside in
      let (blocks, e, rounds) =
        scan_loop-Rounds fuel code (round code s curr next).0 next bounds.1 (omega arith) in
      (emplace (round code s curr next).1 blocks, rw (more, e), go_on inside rounds)
]

-- The loop ends within its fuel.
pub create_basic_blocks-Rounds :
    (code : List ℕ) → Runs code (create_basic_blocks code) (record { is_dead = false; begin = 0 }) 0
unfolding create_basic_blocks
create_basic_blocks-Rounds code =
    scan_loop-Rounds (length code + 1) code _ 0 (omega arith) (omega arith)
