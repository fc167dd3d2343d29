-- ===== src/Compiler/Jumps/Laws.antt =====
-- The resolved branches against what the instructions at the ends of the blocks ask for.
use evmjit.Prelude.{
  ℕ, zero, suc, ◌+◌, ◌≡◌, ◌<◌, ◌∙◌, ◌==◌, true, List, [], ◌∷◌, ◌++◌, Option, none, some, length,
  refl, get_elem?, arith, if◌then◌else◌, eqb_refl,
}
use evmjit.Compiler.Jumps.{
  Place, DestIdx, Terminator, Branch, find_case, next_place, resolve_one, resolve_from,
  resolve_jumps, all_are, phi_value, table_input,
}
use mathlib.Core.Option

-- Where the branch of block `i` leads, with the values at that time: the jump table looks its input up.
abbrev pub taken : (ℕ → ℕ) → Branch → Place
taken values (Branch.goto p) = p
taken values (Branch.choose c p q) = if values c == 0 then q else p

abbrev pub enter : List (ℕ × ℕ) → (ℕ → ℕ) → List (ℕ × ℕ) → ℕ → Place → Option Place
enter cases values incoming i Place.table_block =
    Option.map (λ v. find_case cases (values v)) (table_input incoming i)
enter cases values incoming i p = some p

-- What the instructions say: the block of the destination, or the next block.
abbrev pub dest_of : (ℕ → ℕ) → DestIdx → ℕ
dest_of values (DestIdx.constant dest) = dest
dest_of values (DestIdx.computed v) = values v

abbrev pub expected : List (ℕ × ℕ) → (ℕ → ℕ) → Place → Option Terminator → Place
expected cases values next none = next
expected cases values next (some Terminator.leave) = Place.exit_block
expected cases values next (some (Terminator.jump d)) = find_case cases (dest_of values d)
expected cases values next (some (Terminator.jump_if c d)) =
    if values c == 0 then next else find_case cases (dest_of values d)

all_are-phi_value :
    (w : ℕ) (incoming : List (ℕ × ℕ)) (i v : ℕ)
    → all_are w incoming ≡ true
    → phi_value incoming i ≡ some v
    → v ≡ w
all_are-phi_value w [] i v same found = cc
all_are-phi_value w ((u, j) ∷ incoming) i v same found =
    ground (arith, all_are-phi_value w incoming i v)

table_input-phi_value :
    (incoming : List (ℕ × ℕ)) (i v : ℕ)
    → phi_value incoming i ≡ some v
    → table_input incoming i ≡ some v
table_input-phi_value [] i v found = cc
table_input-phi_value ((u, j) ∷ incoming) i v found =
    ground (arith, all_are-phi_value u incoming i v)

some-same : {A : Type 0} {a b : A} → some a ≡ some b → a ≡ b
some-same e = cc

-- The value of a computed destination.
abbrev HasDest : Option Terminator → ℕ → Type 0
HasDest (some (Terminator.jump (DestIdx.computed w))) v = w ≡ v
HasDest (some (Terminator.jump_if c (DestIdx.computed w))) v = w ≡ v
HasDest _ v = ⊥

module _ (cases : List (ℕ × ℕ)) (next : Place) (i : ℕ) (rest : List (ℕ × ℕ)) where
  first_value :
      (t : Option Terminator) (v : ℕ)
      → HasDest t v
      → phi_value ((resolve_one cases i next t).1 ++ rest) i ≡ some v
  first_value t v has = ground (arith, eqb_refl i)

  other_value :
      (t : Option Terminator) (j : ℕ)
      → i < j
      → phi_value ((resolve_one cases i next t).1 ++ rest) j ≡ phi_value rest j
  other_value t j below = ground arith

module _ (cases : List (ℕ × ℕ)) (count : ℕ) where
  resolve_from-phi_value :
      (i k : ℕ) (terms : List (Option Terminator)) (t : Option Terminator) (v : ℕ)
      → get_elem? terms k ≡ some t
      → HasDest t v
      → phi_value (resolve_from cases count i terms).1 (i + k) ≡ some v
  unfolding resolve_from
  resolve_from-phi_value i k [] t v at has = cc
  resolve_from-phi_value i zero (t' ∷ terms) t v at has =
      let here : i + 0 ≡ i = omega arith in
      let same : t' ≡ t = some-same at in
      rw (here, same) (first_value cases (next_place count i) i _ t v has)
  resolve_from-phi_value i (suc k) (t' ∷ terms) t v at has =
      let further : i + suc k ≡ i + 1 + k = omega arith in
      rw further (
        other_value cases (next_place count i) i _ t' (i + 1 + k) (omega arith)
        ∙ resolve_from-phi_value (i + 1) k terms t v at has)

  resolve_from-get :
      (i k : ℕ) (terms : List (Option Terminator)) (t : Option Terminator)
      → get_elem? terms k ≡ some t
      → get_elem? (resolve_from cases count i terms).0 k
        ≡ some (resolve_one cases (i + k) (next_place count (i + k)) t).0
  unfolding resolve_from
  resolve_from-get i k [] t at = cc
  resolve_from-get i zero (t' ∷ terms) t at =
      let here : i + 0 ≡ i = omega arith in let same : t' ≡ t = some-same at in rw (here, same) refl
  resolve_from-get i (suc k) (t' ∷ terms) t at =
      let further : i + suc k ≡ i + 1 + k = omega arith in
      rw further (resolve_from-get (i + 1) k terms t at)

-- A branch that is resolved as the value of the PHI node says leads where the instruction says.
find_case-enter :
    (cases all incoming : List (ℕ × ℕ)) (values : ℕ → ℕ) (i dest : ℕ)
    → enter all values incoming i (find_case cases dest) ≡ some (find_case cases dest)
unfolding find_case
find_case-enter [] all incoming values i dest = refl
find_case-enter ((key, k) ∷ cases) all incoming values i dest =
    ground (arith, find_case-enter cases all incoming values i dest)

module _ (cases incoming : List (ℕ × ℕ)) (values : ℕ → ℕ) (i count : ℕ) where
  next_place-enter : enter cases values incoming i (next_place count i) ≡ some (next_place count i)
  next_place-enter = ground arith

  resolve_one-expected :
      (t : Option Terminator)
      → ((v : ℕ) → HasDest t v → table_input incoming i ≡ some v)
      → enter cases values incoming i (taken values (resolve_one cases i (next_place count i) t).0)
        ≡ some (expected cases values (next_place count i) t)
  resolve_one-expected none input = next_place-enter
  resolve_one-expected (some Terminator.leave) input = refl
  resolve_one-expected (some (Terminator.jump (DestIdx.constant dest))) input =
      find_case-enter cases cases incoming values i dest
  resolve_one-expected (some (Terminator.jump (DestIdx.computed w))) input = rw (input w refl) refl
  resolve_one-expected (some (Terminator.jump_if c (DestIdx.constant dest))) input =
      ground (arith, next_place-enter, find_case-enter cases cases incoming values i dest)
  resolve_one-expected (some (Terminator.jump_if c (DestIdx.computed w))) input =
      ground (arith, next_place-enter, input w refl)

-- After resolveJumps, each code block goes on where its instructions say, whatever the values are when
-- the code runs: a block without a terminator and a JUMPI with the condition 0 with the next block, or
-- the block "Stop" behind the last one, and a jump at the block that the table has for its
-- destination, or at "Abort" where it has none; also where the PHI node has been simplified.
pub resolve_jumps-expected :
    (cases : List (ℕ × ℕ)) (terms : List (Option Terminator)) (values : ℕ → ℕ) (i : ℕ)
    (t : Option Terminator)
    → get_elem? terms i ≡ some t
    → let (branches, incoming) = resolve_jumps cases terms in
      (branch : Branch) × (get_elem? branches i ≡ some branch)
      × (enter cases values incoming i (taken values branch)
          ≡ some (expected cases values (next_place (length terms) i) t))
unfolding resolve_jumps
resolve_jumps-expected cases terms values i t at =
    let incoming : List (ℕ × ℕ) = (resolve_jumps cases terms).1 in
    let here : 0 + i ≡ i = omega arith in
    (
      (resolve_one cases i (next_place (length terms) i) t).0,
      rw here at (resolve_from-get cases (length terms) 0 i terms t at),
      resolve_one-expected cases incoming values i (length terms) t λ v has.
          table_input-phi_value incoming i v
            (rw here at (resolve_from-phi_value cases (length terms) 0 i terms t v at has)),
    )
