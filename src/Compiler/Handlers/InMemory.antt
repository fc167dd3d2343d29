-- ===== src/Compiler/Handlers/InMemory.antt =====
-- The accesses to memory in the code of a block, on runs on which `mem.require` accepts what it is asked for.
use evmjit.Prelude.{
  ℕ, ◌+◌, ◌%◌, ◌^◌, ◌≤◌, ◌<◌, ◌≡◌, ◌⊎◌, refl, inl, inr, List, [], ◌∷◌, Option, none, some, arith,
}
use evmjit.Compiler.Blocks.{BasicBlock}
use evmjit.Compiler.Emit.{Query, Effect, Output, area, address_slot}
use evmjit.Compiler.Handlers.{emit_block}
use evmjit.Compiler.Handlers.MemoryAreas.{Lies, Covered, CoversOutput, accesses, emit_block-areas}
use evmjit.Compiler.Observer.{Observer, Always, Always-simulates}
use evmjit.Compiler.Setting.{Setting}
use evmjit.Memory.Expansion.{mem_require-accepted}
use evmjit.Memory.Require.{mem_require, price}

-- An access of `count` bytes from `p` on lies in an area that `mem.require` has accepted, and in the memory
-- of `n` bytes that it has left.
abbrev pub IsIn : ℕ → ℕ → ℕ × (ℕ × ℕ) → Type 0
IsIn p count (offset, (size, n)) =
    (count ≡ 0) ⊎ ((offset ≤ p) × (p + count ≤ offset + size) × (p + count ≤ n))

abbrev pub IsInSome : ℕ → ℕ → List (ℕ × (ℕ × ℕ)) → Type 0
IsInSome p count [] = ⊥
IsInSome p count (a ∷ areas) = IsIn p count a ⊎ IsInSome p count areas

-- The number of areas asked for so far, and those that the instruction has been given; none where the gas
-- has run out.
abbrev pub Given : Type 0
Given = ℕ × Option (List (ℕ × (ℕ × ℕ)))

abbrev pub IsSafe : ℕ → ℕ → Given → Type 0
IsSafe p count (turn, none) = Unit
IsSafe p count (turn, some areas) = IsInSome p count areas

abbrev OutputIsSafe : Output → Given → Type 0
OutputIsSafe (area p count) given = IsSafe p count given
OutputIsSafe address_slot given = Unit

abbrev MayAsk : Given → Query → Type 0
MayAsk given (Query.mem_word p) = IsSafe p 32 given
MayAsk given (Query.sha3 p count) = IsSafe p count given
MayAsk given (Query.call args) =
    IsSafe args.in_off args.in_size given × OutputIsSafe args.output given
MayAsk given _ = Unit

abbrev MayDo : Given → Effect → Type 0
MayDo given (Effect.store_word p word) = IsSafe p 32 given
MayDo given (Effect.store_byte p byte) = IsSafe p 1 given
MayDo given (Effect.mem_cpy src idx p count) = IsSafe p count given
MayDo given (Effect.mem_zero p count) = IsSafe p count given
MayDo given (Effect.log address p count topics) = IsSafe p count given
MayDo given (Effect.return_data p count) = IsSafe p count given
MayDo given _ = Unit

-- The state after a call of `mem.require` with the result.
abbrev give : ℕ → List (ℕ × (ℕ × ℕ)) → ℕ → ℕ → Option (ℕ × ℕ) → Given
give turn areas offset size none = (turn + 1, none)
give turn areas offset size (some (g, n)) = (turn + 1, some ((offset, (size, n)) ∷ areas))

-- The gas and the size of the memory at the `n`-th call of `mem.require`.
module _ (gas size_cur : ℕ → ℕ) where
  abbrev given_after : Given → Effect → Given
  given_after (turn, none) f = (turn, none)
  given_after (turn, some areas) (Effect.count_inst inst) = (turn, some [])
  given_after (turn, some areas) (Effect.require offset size) =
      give turn areas offset size (mem_require (gas turn) (size_cur turn) offset size)
  given_after (turn, some areas) _ = (turn, some areas)

  abbrev pub in_memory : Observer Given
  in_memory = record {
    may_ask = MayAsk;
    asked = λ given q v. given;
    may_tell = MayDo;
    told = given_after;
  }

-- The areas that have been asked for, and those that have been given.
abbrev Accepted : List (ℕ × ℕ) → List (ℕ × (ℕ × ℕ)) → Type 0
Accepted [] [] = Unit
Accepted ((offset, size) ∷ asked) ((offset', (size', n)) ∷ given) =
    (offset ≡ offset')
    × (size ≡ size')
    × ((size ≡ 0) ⊎ ((offset + size ≤ n) × (n < 2 ^ 33)))
    × Accepted asked given
Accepted _ _ = ⊥

abbrev Matches : List (ℕ × ℕ) → Given → Type 0
Matches asked (turn, none) = Unit
Matches asked (turn, some given) = Accepted asked given

Lies-IsIn :
    (p count offset size n : ℕ)
    → (size ≡ 0) ⊎ ((offset + size ≤ n) × (n < 2 ^ 33))
    → Lies p count (offset, size)
    → IsIn p count (offset, (size, n))
Lies-IsIn p count offset size n (inl empty) (none_left, inside) = inl (none_left empty)
Lies-IsIn p count offset size n (inr (fits, small)) (none_left, inside) =
    let (above, below) = inside (omega arith) (omega arith) in inr (above, below, omega arith)

Covered-IsInSome :
    (p count : ℕ) (asked : List (ℕ × ℕ)) (given : List (ℕ × (ℕ × ℕ)))
    → Accepted asked given
    → Covered p count asked
    → IsInSome p count given
Covered-IsInSome p count [] given accepted covered = absurd covered
Covered-IsInSome p count (a ∷ asked) [] accepted covered = absurd accepted
Covered-IsInSome p count ((offset, size) ∷ asked) ((offset', (size', n)) ∷ given)
      (same, same', fits, accepted) (inl lies) =
    inl (rw (same, same') at (Lies-IsIn p count offset size n fits lies))
Covered-IsInSome p count ((offset, size) ∷ asked) ((offset', (size', n)) ∷ given)
      (same, same', fits, accepted) (inr covered) =
    inr (Covered-IsInSome p count asked given accepted covered)

Covered-IsSafe :
    (p count : ℕ) (asked : List (ℕ × ℕ)) (given : Given)
    → Matches asked given
    → Covered p count asked
    → IsSafe p count given
Covered-IsSafe p count asked (turn, none) matches covered = tt
Covered-IsSafe p count asked (turn, some given) matches covered =
    Covered-IsInSome p count asked given matches covered

Covers-OutputIsSafe :
    (output : Output) (asked : List (ℕ × ℕ)) (given : Given)
    → Matches asked given
    → CoversOutput output asked
    → OutputIsSafe output given
Covers-OutputIsSafe (area p count) asked given matches covered =
    Covered-IsSafe p count asked given matches covered
Covers-OutputIsSafe address_slot asked given matches covered = tt

MayAsk-IsSafe :
    (asked : List (ℕ × ℕ)) (given : Given) (q : Query)
    → Matches asked given
    → accesses.may_ask asked q
    → MayAsk given q
MayAsk-IsSafe asked given (Query.mem_word p) matches may =
    Covered-IsSafe p 32 asked given matches may
MayAsk-IsSafe asked given (Query.sha3 p count) matches may =
    Covered-IsSafe p count asked given matches may
MayAsk-IsSafe asked given (Query.call args) matches (input, output) = (
  Covered-IsSafe args.in_off args.in_size asked given matches input,
  Covers-OutputIsSafe args.output asked given matches output,
)
MayAsk-IsSafe asked given _ matches may = tt

MayDo-IsSafe :
    (asked : List (ℕ × ℕ)) (given : Given) (f : Effect)
    → Matches asked given
    → accesses.may_tell asked f
    → MayDo given f
MayDo-IsSafe asked given (Effect.store_word p word) matches may =
    Covered-IsSafe p 32 asked given matches may
MayDo-IsSafe asked given (Effect.store_byte p byte) matches may =
    Covered-IsSafe p 1 asked given matches may
MayDo-IsSafe asked given (Effect.mem_cpy src idx p count) matches may =
    Covered-IsSafe p count asked given matches may
MayDo-IsSafe asked given (Effect.mem_zero p count) matches may =
    Covered-IsSafe p count asked given matches may
MayDo-IsSafe asked given (Effect.log address p count topics) matches may =
    Covered-IsSafe p count asked given matches may
MayDo-IsSafe asked given (Effect.return_data p count) matches may =
    Covered-IsSafe p count asked given matches may
MayDo-IsSafe asked given _ matches may = tt

module _ (gas size_cur : ℕ → ℕ) (whole : (n : ℕ) → size_cur n % 32 ≡ 0)
    (affordable : (n : ℕ) → gas n + price (size_cur n) < 2 ^ 47) where
  give-Matches :
      (turn offset size : ℕ) (asked : List (ℕ × ℕ)) (given : List (ℕ × (ℕ × ℕ)))
      (result : Option (ℕ × ℕ))
      → Accepted asked given
      → mem_require (gas turn) (size_cur turn) offset size ≡ result
      → Matches ((offset, size) ∷ asked) (give turn given offset size result)
  give-Matches turn offset size asked given none accepted e = tt
  give-Matches turn offset size asked given (some (g, n)) accepted e =
      let fits =
        mem_require-accepted (gas turn) (size_cur turn) offset size g n (whole turn)
          (affordable turn) e in
      (refl, refl, fits, accepted)

  given_after-Matches :
      (asked : List (ℕ × ℕ)) (given : Given) (f : Effect)
      → Matches asked given
      → Matches (accesses.told asked f) (given_after gas size_cur given f)
  given_after-Matches asked (turn, none) f matches = tt
  given_after-Matches asked (turn, some given) (Effect.count_inst inst) matches = tt
  given_after-Matches asked (turn, some given) (Effect.require offset size) matches =
      give-Matches turn offset size asked given _ matches refl
  given_after-Matches asked (turn, some given) _ matches = matches

  -- In the code of a whole block, on every path: each read, write, copy, hash, log and return of memory, and
  -- the input and the output of each call, lies in an area that the same instruction has asked `mem.require`
  -- for before, and in the memory that it has left, unless the access has no bytes, or a call of
  -- `mem.require` before it has run out of gas. The `n`-th call finds the gas `gas n`, which with the price of
  -- the memory is less than 2 ^ 47, and a memory of `size_cur n` bytes, in whole words.
  pub emit_block-accesses :
      (s : Setting) (block : BasicBlock)
      → block.begin ≤ block.end
      → Always
          (in_memory gas size_cur)
          (λ given it. it ≡ block.end)
          (0, some [])
          (emit_block s block)
  emit_block-accesses s block ordered =
      Always-simulates accesses (in_memory gas size_cur) Matches
        (λ asked given q r may. (MayAsk-IsSafe asked given q r may, λ v. r))
        (λ asked given f r may.
          (MayDo-IsSafe asked given f r may, given_after-Matches asked given f r))
        (λ areas it. Unit {0} × (it ≡ block.end)) (λ given it. it ≡ block.end)
        (λ asked given it r h. h.1) [] (0, some []) (emit_block s block) tt
        (emit_block-areas s block [] ordered)
