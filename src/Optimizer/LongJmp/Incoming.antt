-- ===== src/Optimizer/LongJmp/Incoming.antt =====
-- What the pass makes of the blocks, and what it adds to the PHI node of "Exit".
use evmjit.Prelude.{
  ℕ, zero, suc, ◌+◌, ◌<◌, ◌≡◌, refl, Bool, true, false, List, [], ◌∷◌, ◌++◌, Option, none, some,
  get_elem?, All, arith, if◌then◌else◌,
}
use evmjit.Optimizer.LongJmp.{Target, Term, Block, abort_code, phi, eliminate, eliminate_from}
use mathlib.Core.Option

abbrev pub is_unreachable : {S : Type 0} → Term S → Bool
is_unreachable Term.unreachable = true
is_unreachable (Term.branch t) = false
is_unreachable (Term.choose c t u) = false

pub phi-append :
    (xs ys : List (ℕ × ℕ)) (p : ℕ)
    → phi (xs ++ ys) p ≡ elim (phi xs p) [ none ↦ phi ys p | some c ↦ some c ]
unfolding phi
phi-append [] ys p = refl
phi-append ((c, q) ∷ xs) ys p = ground (arith, phi-append xs ys p)

module _ {S : Type 0} where
  -- What the pass makes of one block.
  abbrev pub lowered : Block S → Block S
  lowered b = if is_unreachable b.term then (record b { term = Term.branch Target.exit }) else b

  eliminate_lem :
      (i : ℕ) (b : Block S)
      → eliminate i b ≡ (
        lowered b,
        (if is_unreachable b.term then (abort_code, i) ∷ [] else [], is_unreachable b.term),
      )
  unfolding eliminate
  eliminate_lem i b = ground arith

  abbrev pub eliminated : ℕ → List (Block S) → List (Block S)
  eliminated i blocks = (eliminate_from i blocks).0

  abbrev pub added : ℕ → List (Block S) → List (ℕ × ℕ)
  added i blocks = (eliminate_from i blocks).1.0

  pub get_elem?-eliminated :
      (i : ℕ) (blocks : List (Block S)) (j : ℕ)
      → get_elem? (eliminated i blocks) j ≡ Option.map lowered (get_elem? blocks j)
  unfolding eliminate_from
  get_elem?-eliminated i [] j = refl
  get_elem?-eliminated i (b ∷ blocks) zero = rw (eliminate_lem i b)
  get_elem?-eliminated i (b ∷ blocks) (suc j) = get_elem?-eliminated (i + 1) blocks j

  -- What the blocks from number `i` on add for a block before them.
  phi-added_before :
      (i : ℕ) (blocks : List (Block S)) (p : ℕ) → p < i → phi (added i blocks) p ≡ none
  unfolding eliminate_from phi
  phi-added_before i [] p h = refl
  phi-added_before i (b ∷ blocks) p h =
      ground (arith, eliminate_lem i b, phi-added_before (i + 1) blocks p)

  -- The code that is added for a block.
  abbrev pub code_for : Option (Block S) → Option ℕ
  code_for none = none
  code_for (some b) = if is_unreachable b.term then some abort_code else none

  pub phi-added :
      (i : ℕ) (blocks : List (Block S)) (j : ℕ)
      → phi (added i blocks) (i + j) ≡ code_for (get_elem? blocks j)
  unfolding eliminate_from phi
  phi-added i [] j = refl
  phi-added i (b ∷ blocks) zero =
      let e : i + 0 ≡ i = omega arith in
      rw e (ground (arith, eliminate_lem i b, phi-added_before (i + 1) blocks i))
  phi-added i (b ∷ blocks) (suc j) =
      let e : i + suc j ≡ i + 1 + j = omega arith in
      rw e (ground (arith, eliminate_lem i b, phi-added (i + 1) blocks j))

  -- No block that is left ends in a `longjmp`.
  pub eliminated-All :
      (i : ℕ) (blocks : List (Block S))
      → All (λ b. is_unreachable b.term ≡ false) (eliminated i blocks)
  unfolding eliminate_from
  eliminated-All i [] = tt
  eliminated-All i (b ∷ blocks) =
      (rw (eliminate_lem i b) (ground arith), eliminated-All (i + 1) blocks)
