-- ===== src/Compiler/Blocks/Shape.antt =====
-- The shape of the basic blocks: their order in the code, and the instructions in each.
use evmjit.Prelude.{
  ℕ, ◌≤◌, ◌<◌, ◌≡◌, ◌≢◌, refl, sym, ◌∙◌, inl, inr, List, [], ◌∷◌, some, length, true, false, ◌&&◌,
  not, Bool-cases, arith, if_same, and-true,
}
use mathlib.Core.Bool.{false≢true}
use evmjit.Instruction.{Instruction, decode, byte_at}
use evmjit.Compiler.Blocks.{
  BasicBlock, Scan, skip_push_data_and_get_next, ends_path, ends_block, is_jumpdest, is_end, round,
  begin_at, emplace, create_basic_blocks,
}
use evmjit.Compiler.Blocks.Walk.{Rounds, finish, go_on, next_bounds, create_basic_blocks-Rounds}

-- `Straight code b c`: instruction by instruction, `c` is reached from `b` over instructions that
-- end no block, and none but the first is a JUMPDEST.
pub data Straight (code : List ℕ) (b : ℕ) : ℕ → Type 0 where
  here : {c : ℕ} → c ≡ b → Straight code b c
  next :
      {c d : ℕ}
      → Straight code b c
      → ends_block (decode (byte_at code c)) ≡ false
      → d ≡ skip_push_data_and_get_next code c
      → byte_at code d ≢ 0x5b
      → Straight code b d

-- A block runs straight to its last instruction, which starts at `last` and stands inside it.
pub record IsBlock (code : List ℕ) (b : BasicBlock) : Type 0 where
  pub index : b.first_instr_idx ≡ b.begin
  pub last : ℕ
  pub body : Straight code b.begin last
  pub to_end : b.end ≡ skip_push_data_and_get_next code last
  pub order : (b.begin ≤ last) × (last < b.end) × (b.end ≤ length code)
  -- why the block ends: by its last instruction, at the end of the code, or before a JUMPDEST
  pub reason : is_end code last b.end ≡ true

-- The blocks lie one behind the other, from `lo` on.
abbrev pub AreBlocks : List ℕ → ℕ → List BasicBlock → Type 0
AreBlocks code lo [] = Unit {0}
AreBlocks code lo (b ∷ bs) = (lo ≤ b.begin) × IsBlock code b × AreBlocks code b.end bs

-- A block in progress has run straight so far.
abbrev pub Within : List ℕ → Scan → ℕ → Type 0
Within code s curr = s.is_dead ≡ false → (s.begin ≤ curr) × Straight code s.begin curr

AreBlocks-weaken :
    (code : List ℕ) (lo lo' : ℕ) (bs : List BasicBlock)
    → lo ≤ lo'
    → AreBlocks code lo' bs
    → AreBlocks code lo bs
AreBlocks-weaken code lo lo' [] le h = tt
AreBlocks-weaken code lo lo' (b ∷ bs) le h = (omega (arith, h.0), h.1, h.2)

pub ends_path-ends_block : (i : Instruction) → ends_block i ≡ false → ends_path i ≡ false
unfolding ends_path ends_block
ends_path-ends_block i = ground arith

module _ (code : List ℕ) (s : Scan) (curr : ℕ) (inside : curr < length code) where
  abbrev pub after : ℕ
  after = skip_push_data_and_get_next code curr

  pub going_on :
      is_end code curr after ≡ false
      → (ends_block (decode (byte_at code curr)) ≡ false) × (byte_at code after ≢ 0x5b)
  going_on = ground arith

  -- The block in progress, after the test of `isDead`.
  pub live_body :
      Within code s curr
      → (s.is_dead && not (is_jumpdest (byte_at code curr))) ≡ false
      → (begin_at s curr ≤ curr) × Straight code (begin_at s curr) curr
  live_body w live = elim (Bool-cases s.is_dead) [
    | inl dead ↦ rw dead (omega arith, here refl)
    | inr alive ↦ rw alive (w alive)
  ]

  pub round-Within : Within code s curr → Within code (round code s curr after).0 after
  unfolding round
  round-Within w = elim (Bool-cases (s.is_dead && not (is_jumpdest (byte_at code curr)))) [
    | inl skip ↦ rw skip (λ alive. absurd (false≢true (sym alive ∙ and-true _ _ skip)))
    | inr live ↦ elim (Bool-cases (is_end code curr after)) [
      | inl ending ↦ rw (live, ending) (λ _. (omega arith, here refl))
      | inr going ↦
          rw (live, going)
            λ alive.
              let (le, body) = live_body w live in
              let (plain, stays) = going_on going in
              (omega (arith, le, next_bounds code curr inside), next body plain refl stays)
    ]
  ]

  -- The block that a round adds ends with the instruction of the round.
  pub added-IsBlock :
      Within code s curr
      → (s.is_dead && not (is_jumpdest (byte_at code curr))) ≡ false
      → is_end code curr after ≡ true
      → let begin = begin_at s curr in
        let b : BasicBlock = record { first_instr_idx = begin; begin = begin; end = after } in
        (is : IsBlock code b) × (is.last ≡ curr)
  added-IsBlock w live ending =
      let (le, body) = live_body w live in
      let bounds = next_bounds code curr inside in
      (
        record {
          index = refl;
          last = curr;
          body = body;
          to_end = refl;
          order = (le, bounds.0, bounds.1);
          reason = ending;
        },
        refl,
      )

  emplace-AreBlocks :
      (bs : List BasicBlock)
      → Within code s curr
      → AreBlocks code (begin_at (round code s curr after).0 after) bs
      → AreBlocks code (begin_at s curr) (emplace (round code s curr after).1 bs)
  unfolding round
  emplace-AreBlocks bs w h =
      elim (Bool-cases (s.is_dead && not (is_jumpdest (byte_at code curr)))) [
        | inl skip ↦
            let dead : s.is_dead ≡ true = and-true _ _ skip in
            let below = (next_bounds code curr inside).0 in
            rw (skip, dead)
              (AreBlocks-weaken code curr after bs (omega (arith, below)) (rw (skip, dead) at h))
        | inr live ↦ elim (Bool-cases (is_end code curr after)) [
          | inl ending ↦
              let (is, _) = added-IsBlock w live ending in
              let tail : AreBlocks code after bs = rw (live, ending, if_same) at h in
              rw (live, ending) (omega arith, is, tail)
          | inr going ↦
              let alive = ends_path-ends_block _ (going_on going).0 in
              rw (live, going) (rw (live, going, alive) at h)
        ]
      ]

Rounds-AreBlocks :
    (code : List ℕ) {s : Scan} {curr : ℕ} {bs : List BasicBlock}
    → Rounds code s curr bs
    → Within code s curr
    → AreBlocks code (begin_at s curr) bs
Rounds-AreBlocks code (finish e) w = tt
Rounds-AreBlocks code (go_on {s = s} {curr = curr} {blocks = bs} inside rounds) w =
    emplace-AreBlocks code s curr inside bs w
      (Rounds-AreBlocks code rounds (round-Within code s curr inside w))

-- `createBasicBlocks` returns, and its blocks lie one behind the other inside the code; each starts
-- at its index, runs straight from its beginning to its last instruction, over no instruction that
-- ends a block and no second JUMPDEST, ends where that last instruction with its data ends, and ends
-- for a reason: a jump or a halt, the end of the code, or a JUMPDEST that follows.
pub create_basic_blocks-AreBlocks :
    (code : List ℕ)
    → (bs : List BasicBlock) × (create_basic_blocks code ≡ some bs) × AreBlocks code 0 bs
create_basic_blocks-AreBlocks code =
    let (bs, e, rounds) = create_basic_blocks-Rounds code in
    (bs, e, Rounds-AreBlocks code rounds (λ _. (omega arith, here refl)))
