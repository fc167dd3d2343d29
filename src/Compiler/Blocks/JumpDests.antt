-- ===== src/Compiler/Blocks/JumpDests.antt =====
-- The jump table: the cases that the JUMPDEST handler of `Compiler::compileBasicBlock` adds, against
-- a direct description of the jump destinations of the code.
use native.Mathlib.Numerals.{add-one}
use evmjit.Prelude.{
  ℕ, zero, suc, ◌+◌, ◌-◌, ◌≤◌, ◌<◌, ◌≡◌, ◌≢◌, refl, sym, ap, ◌∙◌, inl, inr, List, [], ◌∷◌, ◌++◌,
  min, some, length, drop, Bool, true, false, ◌&&◌, not, leb, ◌==◌, Bool-cases, arith,
  if◌then◌else◌, and-true, eqb_refl, lt→eqb,
}
use mathlib.Core.Bool.{false≢true}
use evmjit.Instruction.{byte_at}
use evmjit.Compiler.Blocks.{
  BasicBlock, Scan, skip_push_data_and_get_next, is_jumpdest, is_end, round, begin_at, emplace,
  create_basic_blocks,
}
use evmjit.Compiler.Blocks.Shape.{ends_path-ends_block, going_on}
use evmjit.Compiler.Blocks.Walk.{Rounds, finish, go_on, next_bounds, create_basic_blocks-Rounds}

-- The key of a JUMPDEST that starts a block, the case that is added for it.
abbrev pub key_at : List ℕ → ℕ → List ℕ
key_at code i = if is_jumpdest (byte_at code i) then i ∷ [] else []

-- The keys of the jump table, in the order in which the blocks are compiled: the handler of a
-- JUMPDEST adds the block's `firstInstrIdx`, and asserts that the JUMPDEST is the block's first
-- instruction.
unfoldable pub jump_table : List ℕ → List BasicBlock → List ℕ
jump_table code [] = []
jump_table code (b ∷ bs) =
    (if is_jumpdest (byte_at code b.begin) then b.first_instr_idx ∷ [] else [])
    ++ jump_table code bs

-- The bytes of data behind an instruction byte.
abbrev pub data_length : ℕ → ℕ
data_length b = if leb 0x60 b && leb b 0x7f then b - 0x60 + 1 else 0

-- The jump destinations of a code whose first byte has index `i`: each byte 0x5b that is no data of
-- a PUSH. `skip` bytes of data are still to pass.
unfoldable pub jumpdests_from : ℕ → ℕ → List ℕ → List ℕ
jumpdests_from i skip [] = []
jumpdests_from i (suc skip) (b ∷ bs) = jumpdests_from (i + 1) skip bs
jumpdests_from i zero (b ∷ bs) =
    (if is_jumpdest b then i ∷ [] else []) ++ jumpdests_from (i + 1) (data_length b) bs

unfoldable pub jumpdests : List ℕ → List ℕ
unfolding jumpdests_from
jumpdests code = jumpdests_from 0 0 code

-- The destinations from the instruction at `i` on.
abbrev rest : List ℕ → ℕ → List ℕ
rest code i = jumpdests_from i 0 (drop i code)

drop-suc :
    (code : List ℕ) (i : ℕ) → i < length code → drop i code ≡ byte_at code i ∷ drop (suc i) code
drop-suc [] i h = absurd (omega arith)
drop-suc (b ∷ code) zero h = refl
drop-suc (b ∷ code) (suc i) h = drop-suc code i (omega arith)

drop-cons :
    (code : List ℕ) (i : ℕ) → i < length code → drop i code ≡ byte_at code i ∷ drop (i + 1) code
drop-cons code i h = rw add-one (drop-suc code i h)

drop_all : (code : List ℕ) (i : ℕ) → length code ≤ i → drop i code ≡ []
drop_all [] zero h = refl
drop_all [] (suc i) h = refl
drop_all (b ∷ code) zero h = absurd (omega arith)
drop_all (b ∷ code) (suc i) h = drop_all code i (omega arith)

-- Passing the data of an instruction, cut off at the end of the code.
pass_data :
    (code : List ℕ) (k i : ℕ)
    → i ≤ length code
    → jumpdests_from i k (drop i code) ≡ rest code (i + min k (length code - i))
unfolding jumpdests_from
pass_data code zero i h = let e : i + min 0 (length code - i) ≡ i = omega arith in rw e
pass_data code (suc k) i h = elim (Bool-cases (leb (length code) i)) [
  | inl done ↦
      let e : i + min (suc k) (length code - i) ≡ i = ground arith in
      rw (e, drop_all code i (ground arith))
  | inr more ↦
      let e : i + min (suc k) (length code - i) ≡ i + 1 + min k (length code - (i + 1)) =
        ground arith in
      rw (e, drop-cons code i (ground arith)) (pass_data code k (i + 1) (ground arith))
]

-- One instruction: its own key, and those behind it.
rest-next :
    (code : List ℕ) (i : ℕ)
    → i < length code
    → rest code i ≡ key_at code i ++ rest code (skip_push_data_and_get_next code i)
unfolding jumpdests_from skip_push_data_and_get_next
rest-next code i h =
    let next : skip_push_data_and_get_next code i
        ≡ i + 1 + min (data_length (byte_at code i)) (length code - (i + 1)) =
      ground arith in
    rw (drop-cons code i h, next)
      (ap (λ r. key_at code i ++ r)
        (pass_data code (data_length (byte_at code i)) (i + 1) (omega arith)))

-- The key of the block in progress.
abbrev pending : List ℕ → Scan → ℕ → List ℕ
pending code s curr = if s.is_dead then [] else if s.begin == curr then [] else key_at code s.begin

-- A block in progress is closed before a JUMPDEST and before the end.
abbrev NoneInside : List ℕ → Scan → ℕ → Type 0
NoneInside code s curr =
    s.is_dead ≡ false
    → (s.begin ≤ curr)
      × (s.begin ≢ curr → (curr ≢ length code) × (is_jumpdest (byte_at code curr) ≡ false))

module _ (code : List ℕ) (s : Scan) (curr : ℕ) (inside : curr < length code) where
  abbrev after : ℕ
  after = skip_push_data_and_get_next code curr

  begin_at-lt : NoneInside code s curr → begin_at s curr < after
  begin_at-lt w = elim (Bool-cases s.is_dead) [
    | inl dead ↦ rw dead (next_bounds code curr inside).0
    | inr alive ↦ rw alive (omega (arith, (w alive).0, next_bounds code curr inside))
  ]

  round-NoneInside : NoneInside code s curr → NoneInside code (round code s curr after).0 after
  unfolding round
  round-NoneInside w = elim (Bool-cases (s.is_dead && not (is_jumpdest (byte_at code curr)))) [
    | inl skip ↦ rw skip (λ alive. absurd (false≢true (sym alive ∙ and-true _ _ skip)))
    | inr live ↦ elim (Bool-cases (is_end code curr after)) [
      | inl ending ↦ rw (live, ending) (λ _. (omega arith, λ ne. absurd (ne refl)))
      | inr going ↦ rw (live, going) (λ _. (omega (arith, begin_at-lt w), λ _. ground arith))
    ]
  ]

  fresh_pending : (dead : Bool) → pending code (record { is_dead = dead; begin = after }) after ≡ []
  fresh_pending true = refl
  fresh_pending false = rw (eqb_refl after)

  -- The keys up to `curr`, once the instruction at `curr` belongs to the block in progress.
  pending-rest :
      NoneInside code s curr
      → (s.is_dead && not (is_jumpdest (byte_at code curr))) ≡ false
      → pending code s curr ++ rest code curr ≡ key_at code (begin_at s curr) ++ rest code after
  pending-rest w live = rw (rest-next code curr inside) (elim (Bool-cases s.is_dead) [
    | inl dead ↦ rw dead
    | inr alive ↦ elim (Bool-cases (s.begin == curr)) [
      | inl fresh ↦ rw (alive, fresh) (ap (λ i. key_at code i ++ rest code after) (ground arith))
      | inr old ↦ rw (alive, old, ((w alive).1 (ground arith)).1)
    ]
  ])

  keys_of_round :
      (bs : List BasicBlock)
      → NoneInside code s curr
      → jump_table code bs ≡ pending code (round code s curr after).0 after ++ rest code after
      → jump_table code (emplace (round code s curr after).1 bs)
        ≡ pending code s curr ++ rest code curr
  unfolding round jump_table
  keys_of_round bs w h = elim (Bool-cases (s.is_dead && not (is_jumpdest (byte_at code curr)))) [
    | inl skip ↦
        let dead : s.is_dead ≡ true = and-true _ _ skip in
        let plain : is_jumpdest (byte_at code curr) ≡ false = ground arith in
        rw (skip, dead, rest-next code curr inside, plain) (rw (skip, dead) at h)
    | inr live ↦ rw (pending-rest w live) (elim (Bool-cases (is_end code curr after)) [
      | inl ending ↦
          rw (live, ending)
            (ap (λ r. key_at code (begin_at s curr) ++ r) (rw (live, ending, fresh_pending) at h))
      | inr going ↦
          let alive = ends_path-ends_block _ (going_on code s curr inside going).0 in
          let started = lt→eqb _ _ (begin_at-lt w) in
          rw (live, going) (rw (live, going, alive, started) at h)
    ])
  ]

Rounds-jump_table :
    (code : List ℕ) {s : Scan} {curr : ℕ} {bs : List BasicBlock}
    → Rounds code s curr bs
    → NoneInside code s curr
    → jump_table code bs ≡ pending code s curr ++ rest code curr
unfolding jump_table jumpdests_from
Rounds-jump_table code (finish {s = s} {curr = curr} e) w =
    rw (drop_all code curr (omega arith)) (elim (Bool-cases s.is_dead) [
      | inl dead ↦ rw dead
      | inr alive ↦ elim (Bool-cases (s.begin == curr)) [
        | inl fresh ↦ rw (alive, fresh)
        | inr old ↦ absurd (((w alive).1 (ground arith)).0 e)
      ]
    ])
Rounds-jump_table code (go_on {s = s} {curr = curr} {blocks = bs} inside rounds) w =
    keys_of_round code s curr inside bs w
      (Rounds-jump_table code rounds (round-NoneInside code s curr inside w))

-- `createBasicBlocks` returns, and the jump table that its blocks give has as its keys exactly the
-- jump destinations of the code, in ascending order: the indices of the bytes 0x5b that are no data
-- of a PUSH, also where they stand behind code that no path reaches.
pub jump_table-jumpdests :
    (code : List ℕ)
    → (bs : List BasicBlock) × (create_basic_blocks code ≡ some bs)
      × (jump_table code bs ≡ jumpdests code)
unfolding jumpdests
jump_table-jumpdests code =
    let (bs, e, rounds) = create_basic_blocks-Rounds code in
    (bs, e, Rounds-jump_table code rounds (λ _. (omega arith, λ ne. absurd (ne refl))))
