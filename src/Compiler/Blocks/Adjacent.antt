-- ===== src/Compiler/Blocks/Adjacent.antt =====
-- Where a basic block goes on that does not end all paths: no dead code lies behind it.
use evmjit.Prelude.{
  ℕ, zero, suc, ◌+◌, ◌<◌, ◌≡◌, ◌⊎◌, refl, ◌∙◌, inl, inr, List, [], ◌∷◌, some, length, get_elem?,
  false, ◌&&◌, not, Bool-cases, arith,
}
use mathlib.Core.Path.{subst}
use evmjit.Instruction.{decode, byte_at}
use evmjit.Compiler.Blocks.{
  BasicBlock, Scan, ends_path, is_jumpdest, is_end, round, emplace, create_basic_blocks,
}
use evmjit.Compiler.Blocks.Walk.{Rounds, finish, go_on, create_basic_blocks-Rounds}
use evmjit.Compiler.Blocks.Shape.{
  IsBlock, Within, round-Within, added-IsBlock, going_on, ends_path-ends_block, after, here,
}

-- The blocks go on at `pc`: the first one starts there, or the code ends there.
abbrev pub StartAt : List ℕ → ℕ → List BasicBlock → Type 0
StartAt code pc [] = pc ≡ length code
StartAt code pc (b ∷ bs) = b.begin ≡ pc

abbrev pub Continues : List ℕ → BasicBlock → List BasicBlock → Type 0
Continues code b bs =
    (is : IsBlock code b) × (ends_path (decode (byte_at code is.last)) ≡ false
      → StartAt code b.end bs)

abbrev pub AreAdjacent : List ℕ → List BasicBlock → Type 0
AreAdjacent code [] = Unit {0}
AreAdjacent code (b ∷ bs) = Continues code b bs × AreAdjacent code bs

-- A block in progress has not reached the end of the code.
abbrev Fresh : List ℕ → Scan → ℕ → Type 0
Fresh code s curr = s.is_dead ≡ false → curr ≡ length code → s.begin ≡ curr

abbrev Adjacent : List ℕ → Scan → List BasicBlock → Type 0
Adjacent code s bs = (s.is_dead ≡ false → StartAt code s.begin bs) × AreAdjacent code bs

module _ (code : List ℕ) (s : Scan) (curr : ℕ) (inside : curr < length code) where
  round-Fresh :
      Fresh code (round code s curr (after code s curr inside)).0 (after code s curr inside)
  unfolding round
  round-Fresh alive at_end = ground arith

  emplace-Adjacent :
      (bs : List BasicBlock)
      → Within code s curr
      → Adjacent code (round code s curr (after code s curr inside)).0 bs
      → Adjacent code s (emplace (round code s curr (after code s curr inside)).1 bs)
  unfolding round
  emplace-Adjacent bs w h = elim (Bool-cases (s.is_dead && not (is_jumpdest (byte_at code curr)))) [
    | inl skip ↦ let h' = rw skip at h in rw skip h'
    | inr live ↦ elim (Bool-cases (is_end code curr (after code s curr inside))) [
      | inl ending ↦
          let (starts, rest) = rw (live, ending) at h in
          let (is, last) = added-IsBlock code s curr inside w live ending in
          rw (live, ending)
            (λ alive. rw alive refl, ((is, λ falls. starts (rw last at falls)), rest))
      | inr going ↦
          let alive = ends_path-ends_block _ (going_on code s curr inside going).0 in
          let (starts, rest) = rw (live, going) at h in
          rw (live, going) (λ was. let begins = starts alive in ground arith, rest)
    ]
  ]

Rounds-Adjacent :
    (code : List ℕ) {s : Scan} {curr : ℕ} {bs : List BasicBlock}
    → Rounds code s curr bs
    → Within code s curr
    → Fresh code s curr
    → Adjacent code s bs
Rounds-Adjacent code (finish e) w fresh = (λ alive. fresh alive e ∙ e, tt)
Rounds-Adjacent code (go_on {s = s} {curr = curr} {blocks = bs} inside rounds) w fresh =
    emplace-Adjacent code s curr inside bs w (
      Rounds-Adjacent code rounds (round-Within code s curr inside w)
        (round-Fresh code s curr inside))

create_basic_blocks-Adjacent :
    (code : List ℕ) (bs : List BasicBlock)
    → create_basic_blocks code ≡ some bs
    → StartAt code 0 bs × AreAdjacent code bs
create_basic_blocks-Adjacent code bs created =
    let (bs', e, rounds) = create_basic_blocks-Rounds code in
    let same : bs' ≡ bs = cc in
    let (starts, adjacent) =
      Rounds-Adjacent code rounds (λ _. (omega arith, here refl)) (λ _ e. refl) in
    (rw same at (starts refl), rw same at adjacent)

pub create_basic_blocks-AreAdjacent :
    (code : List ℕ) (bs : List BasicBlock)
    → create_basic_blocks code ≡ some bs
    → AreAdjacent code bs
create_basic_blocks-AreAdjacent code bs created = (create_basic_blocks-Adjacent code bs created).1

-- The first block starts at the first byte.
pub create_basic_blocks-StartAt :
    (code : List ℕ) (bs : List BasicBlock) → create_basic_blocks code ≡ some bs → StartAt code 0 bs
create_basic_blocks-StartAt code bs created = (create_basic_blocks-Adjacent code bs created).0

-- The block behind number `i`, or the end of the code behind the last one.
abbrev pub GoesOn : List ℕ → List BasicBlock → ℕ → ℕ → Type 0
GoesOn code bs i pc =
    ((i + 1 ≡ length bs) × (pc ≡ length code))
    ⊎ ((next : BasicBlock) × (get_elem? bs (suc i) ≡ some next) × (next.first_instr_idx ≡ pc))

behind :
    (code : List ℕ) (b : BasicBlock) (bs : List BasicBlock) (i pc : ℕ)
    → GoesOn code bs i pc
    → GoesOn code (b ∷ bs) (suc i) pc
behind code b bs i pc (inl (last, at_end)) = inl (omega (arith, last), at_end)
behind code b bs i pc (inr next) = inr next

starts-GoesOn :
    (code : List ℕ) (b : BasicBlock) (bs : List BasicBlock) (pc : ℕ)
    → AreAdjacent code bs
    → StartAt code pc bs
    → GoesOn code (b ∷ bs) 0 pc
starts-GoesOn code b [] pc adjacent starts = inl (omega arith, starts)
starts-GoesOn code b (b' ∷ bs) pc ((is, _), _) starts = inr (b', refl, is.index ∙ starts)

-- Where a block does not end all paths, the block behind it starts where it ends.
pub AreAdjacent-GoesOn :
    (code : List ℕ) (bs : List BasicBlock) (i : ℕ) (b : BasicBlock)
    → AreAdjacent code bs
    → get_elem? bs i ≡ some b
    → (is : IsBlock code b) × (ends_path (decode (byte_at code is.last)) ≡ false
        → GoesOn code bs i b.end)
AreAdjacent-GoesOn code [] i b adjacent at = cc
AreAdjacent-GoesOn code (b' ∷ bs) zero b ((is, falls), adjacent) at =
    let same : b' ≡ b = cc in
    subst
      (λ x.
        (is : IsBlock code x) × (ends_path (decode (byte_at code is.last)) ≡ false
          → GoesOn code (b' ∷ bs) 0 x.end))
      same (is, λ e. starts-GoesOn code b' bs b'.end adjacent (falls e))
AreAdjacent-GoesOn code (b' ∷ bs) (suc i) b (_, adjacent) at =
    let (is, falls) = AreAdjacent-GoesOn code bs i b adjacent at in
    (is, λ e. behind code b' bs i b.end (falls e))
