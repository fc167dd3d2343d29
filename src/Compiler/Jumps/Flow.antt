-- ===== src/Compiler/Jumps/Flow.antt =====
-- The code blocks, their order and the jump table together: where the compiled code goes on, next to the
-- index in the code where the EVM goes on.
use evmjit.Prelude.{
  ℕ, suc, ◌≡◌, ◌⊎◌, refl, inl, inr, List, Option, none, some, length, get_elem?, true, false, Bool,
  ◌==◌, Bool-cases, arith, if◌then◌else◌, get_elem?-lt,
}
use evmjit.Instruction.{decode, byte_at}
use evmjit.Compiler.Blocks.{BasicBlock, skip_push_data_and_get_next, ends_path, create_basic_blocks}
use evmjit.Compiler.Blocks.Shape.{Straight}
use evmjit.Compiler.Blocks.Adjacent.{GoesOn, AreAdjacent-GoesOn, create_basic_blocks-AreAdjacent}
use evmjit.Compiler.Blocks.JumpDests.{jumpdests}
use evmjit.Compiler.Jumps.{
  Place, Terminator, Branch, table_cases, find_case, next_place, resolve_jumps,
}
use evmjit.Compiler.Jumps.Laws.{taken, enter, dest_of, expected, resolve_jumps-expected}
use evmjit.Compiler.Jumps.Table.{Leads, Found, contains, find_case-jumpdests}

-- What the EVM does behind a block: it goes on at an index, leaves the contract, or fails.
pub data Onward : Type 0 where
  at : ℕ → Onward
  leaves fails : Onward

abbrev pub jumps_to : List ℕ → ℕ → Onward
jumps_to code dest = if contains (jumpdests code) dest then Onward.at dest else Onward.fails

-- `pc` is the index behind the last instruction of the block.
abbrev pub onward : List ℕ → (ℕ → ℕ) → ℕ → Option Terminator → Onward
onward code values pc none = Onward.at pc
onward code values pc (some Terminator.leave) = Onward.leaves
onward code values pc (some (Terminator.jump d)) = jumps_to code (dest_of values d)
onward code values pc (some (Terminator.jump_if c d)) =
    if values c == 0 then Onward.at pc else jumps_to code (dest_of values d)

-- The place for an index: the block that starts there, or the block "Stop" at the end of the code.
abbrev pub IsPlaceOf : List ℕ → List BasicBlock → Onward → Place → Type 0
IsPlaceOf code bs Onward.leaves place = place ≡ Place.exit_block
IsPlaceOf code bs Onward.fails place = place ≡ Place.abort_block
IsPlaceOf code bs (Onward.at pc) place =
    ((place ≡ Place.stop_block) × (pc ≡ length code)) ⊎ Leads bs 0 pc place

-- The terminators that let the code go on behind the block.
abbrev pub falls_through : Option Terminator → Bool
falls_through none = true
falls_through (some (Terminator.jump_if c d)) = true
falls_through _ = false

-- A block that may go on behind its end has a last instruction that does not end all paths.
abbrev pub Fits : List ℕ → BasicBlock → Option Terminator → Type 0
Fits code b t =
    (last : ℕ)
    → Straight code b.begin last
    → b.end ≡ skip_push_data_and_get_next code last
    → falls_through t ≡ true
    → ends_path (decode (byte_at code last)) ≡ false

module _ (code : List ℕ) (bs : List BasicBlock) where
  Found-IsPlaceOf :
      (dest : ℕ) (is_dest : Bool) (place : Place)
      → Found bs 0 dest is_dest place
      → IsPlaceOf code bs (if is_dest then Onward.at dest else Onward.fails) place
  Found-IsPlaceOf dest true place found = inr found
  Found-IsPlaceOf dest false place found = found

  find_case-IsPlaceOf :
      (dest : ℕ)
      → create_basic_blocks code ≡ some bs
      → IsPlaceOf code bs (jumps_to code dest) (find_case (table_cases code 0 bs) dest)
  find_case-IsPlaceOf dest created =
      let (bs', e, found) = find_case-jumpdests code in
      let same : bs' ≡ bs = cc in
      Found-IsPlaceOf dest (contains (jumpdests code) dest) (find_case (table_cases code 0 bs) dest)
        (rw same at found dest)

  next_place-IsPlaceOf :
      (count i pc : ℕ)
      → count ≡ length bs
      → GoesOn code bs i pc
      → IsPlaceOf code bs (Onward.at pc) (next_place count i)
  next_place-IsPlaceOf count i pc sized (inl (last, at_end)) =
      inl (ground (arith, sized, last), at_end)
  next_place-IsPlaceOf count i pc sized (inr (next, has, starts)) =
      let more = get_elem?-lt bs (suc i) has in
      inr (record {
        number = suc i;
        block = next;
        there = ground (arith, more, sized);
        has = has;
        starts = starts;
      })

  expected-IsPlaceOf :
      (values : ℕ → ℕ) (count i pc : ℕ) (t : Option Terminator)
      → create_basic_blocks code ≡ some bs
      → count ≡ length bs
      → (falls_through t ≡ true → GoesOn code bs i pc)
      → IsPlaceOf code bs
          (onward code values pc t)
          (expected (table_cases code 0 bs) values (next_place count i) t)
  expected-IsPlaceOf values count i pc none created sized goes_on =
      next_place-IsPlaceOf count i pc sized (goes_on refl)
  expected-IsPlaceOf values count i pc (some Terminator.leave) created sized goes_on = refl
  expected-IsPlaceOf values count i pc (some (Terminator.jump d)) created sized goes_on =
      find_case-IsPlaceOf (dest_of values d) created
  expected-IsPlaceOf values count i pc (some (Terminator.jump_if c d)) created sized goes_on =
      elim (Bool-cases (values c == 0)) [
        | inl stays ↦ rw stays (next_place-IsPlaceOf count i pc sized (goes_on refl))
        | inr jumps ↦ rw jumps (find_case-IsPlaceOf (dest_of values d) created)
      ]

-- For the blocks that `createBasicBlocks` cuts a code into, with any terminators that their last
-- instructions allow, and whatever the values are when the code runs: after `resolveJumps` each block leads
-- where the EVM goes on. A block that goes on behind its end leads to the block that starts there, or to
-- "Stop" at the end of the code; a jump to a valid destination leads to the block that starts there, and any
-- other jump to "Abort".
pub resolve_jumps-onward :
    (code : List ℕ) (bs : List BasicBlock) (terms : List (Option Terminator)) (values : ℕ → ℕ)
    (i : ℕ) (b : BasicBlock) (t : Option Terminator)
    → create_basic_blocks code ≡ some bs
    → length terms ≡ length bs
    → get_elem? bs i ≡ some b
    → get_elem? terms i ≡ some t
    → Fits code b t
    → let cases = table_cases code 0 bs in
      let (branches, incoming) = resolve_jumps cases terms in
      (branch : Branch) × (place : Place) × (get_elem? branches i ≡ some branch)
      × (enter cases values incoming i (taken values branch) ≡ some place)
      × IsPlaceOf code bs (onward code values b.end t) place
resolve_jumps-onward code bs terms values i b t created sized at_b at_t fits =
    let cases = table_cases code 0 bs in
    let (is, falls) =
      AreAdjacent-GoesOn code bs i b (create_basic_blocks-AreAdjacent code bs created) at_b in
    let (branch, has, entered) = resolve_jumps-expected cases terms values i t at_t in
    (
      branch,
      expected cases values (next_place (length terms) i) t,
      has,
      entered,
      expected-IsPlaceOf code bs values (length terms) i b.end t created sized
          (λ h. falls (fits is.last is.body is.to_end h)),
    )
