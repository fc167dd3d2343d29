-- ===== src/LocalStack/Stored.antt =====
-- `LocalStack::finalize` against the view: what the global stack holds after its stores.
use native.Mathlib.Numerals.{add-one}
use mathlib.Core.Option
use mathlib.Core.Path.{ap₂}
use mathlib.Core.List.{reverse, reverse-append, map, map-append}
use evmjit.Prelude.{
  ℕ, zero, suc, ◌+◌, ◌-◌, ◌≤◌, ◌<◌, ◌≡◌, refl, sym, ap, ◌∙◌, List, [], ◌∷◌, ◌++◌, Option, none,
  some, length, length-append, length-drop, length-map, drop, take, take-append-drop, eqb_refl,
  lt→eqb, lt→eqb', lt→ltb, le→ltb, arith,
}
use evmjit.LocalStack.{LocalStack, item}
use evmjit.LocalStack.Finalize.{store, finalize_loop, finalize}
use evmjit.LocalStack.View.{view, held, from_index, stack_of, IsSound}

pub length-reverse {ℓ} : {A : Type ℓ} (xs : List A) → length (reverse xs) ≡ length xs
length-reverse [] = refl
length-reverse (x ∷ xs) =
    ap length (reverse-append (x ∷ []) xs)
    ∙ omega (arith, length-append (reverse xs) (x ∷ []), length-reverse xs)

module _ {V : Type 0} where
  -- The loop without its two iterators: one item after the other.
  store_all : ℕ → List (Option V) → (ℕ → V) → ℕ → V
  store_all slot [] memory = memory
  store_all slot (x ∷ items) memory = store_all (slot + 1) items (store x slot memory)

  -- The words that such stores put on a stack, an item that is null leaving the word in its slot.
  overlay : ℕ → List (Option V) → (ℕ → V) → List V → List V
  overlay slot [] memory stack = stack
  overlay slot (x ∷ items) memory stack =
      overlay (slot + 1) items memory (Option.get_or x (memory slot) ∷ stack)

  finalize_loop-locals :
      (rounds slot size gp : ℕ) (inputs : List (Option V)) (locals : List V) (memory : ℕ → V)
      → rounds ≡ length locals
      → size ≤ slot + gp
      → finalize_loop rounds slot size gp inputs locals memory
        ≡ store_all slot (map some locals) memory
  unfolding finalize_loop store_all
  finalize_loop-locals zero slot size gp inputs [] memory e h = refl
  finalize_loop-locals zero slot size gp inputs (v ∷ locals) memory e h = absurd (omega arith)
  finalize_loop-locals (suc rounds) slot size gp inputs [] memory e h = absurd (omega arith)
  finalize_loop-locals (suc rounds) slot size gp inputs (v ∷ locals) memory e h =
      rw (le→ltb (slot + gp) size h)
        (finalize_loop-locals rounds (slot + 1) size gp inputs locals _ (omega arith) (omega arith))

  finalize_loop-store_all :
      (rounds slot size gp : ℕ) (xs ys : List (Option V)) (locals : List V) (memory : ℕ → V)
      → rounds ≡ length xs + length locals
      → slot + gp + length xs ≡ size
      → finalize_loop rounds slot size gp (xs ++ ys) locals memory
        ≡ store_all slot (xs ++ map some locals) memory
  unfolding finalize_loop store_all
  finalize_loop-store_all rounds slot size gp [] ys locals memory e h =
      finalize_loop-locals rounds slot size gp ys locals memory (omega arith) (omega arith)
  finalize_loop-store_all zero slot size gp (x ∷ xs) ys locals memory e h = absurd (omega arith)
  finalize_loop-store_all (suc rounds) slot size gp (x ∷ xs) ys locals memory e h =
      rw (lt→ltb (slot + gp) size (omega arith)) (
        finalize_loop-store_all rounds (slot + 1) size gp xs ys locals _ (omega arith)
          (omega arith))

  stack_of-store :
      (x : Option V) (slot n : ℕ) (memory : ℕ → V)
      → n ≤ slot
      → stack_of (store x slot memory) n ≡ stack_of memory n
  unfolding stack_of
  stack_of-store none slot n memory h = refl
  stack_of-store (some v) slot zero memory h = refl
  stack_of-store (some v) slot (suc n) memory h =
      rw (lt→eqb n slot h, stack_of-store (some v) slot n memory (omega arith))

  overlay-store :
      (x : Option V) (slot k : ℕ) (items : List (Option V)) (memory : ℕ → V) (stack : List V)
      → slot < k
      → overlay k items (store x slot memory) stack ≡ overlay k items memory stack
  unfolding overlay
  overlay-store none slot k items memory stack h = refl
  overlay-store (some v) slot k [] memory stack h = refl
  overlay-store (some v) slot k (y ∷ items) memory stack h =
      rw (lt→eqb' k slot h) (overlay-store (some v) slot (k + 1) items memory _ (omega arith))

  stack_of-store_top :
      (x : Option V) (slot : ℕ) (memory : ℕ → V)
      → stack_of (store x slot memory) (slot + 1)
        ≡ Option.get_or x (memory slot) ∷ stack_of memory slot
  unfolding stack_of
  stack_of-store_top none slot memory = rw add-one
  stack_of-store_top (some v) slot memory =
      rw (add-one, eqb_refl slot, stack_of-store (some v) slot slot memory (omega arith))

  stack_of-store_all :
      (slot n : ℕ) (items : List (Option V)) (memory : ℕ → V)
      → n ≡ slot + length items
      → stack_of (store_all slot items memory) n ≡ overlay slot items memory (stack_of memory slot)
  unfolding store_all overlay
  stack_of-store_all slot n [] memory e = ap (stack_of memory) (omega arith)
  stack_of-store_all slot n (x ∷ items) memory e =
      stack_of-store_all (slot + 1) n items (store x slot memory) (omega arith)
      ∙ overlay-store x slot (slot + 1) items memory _ (omega arith)
      ∙ ap (overlay (slot + 1) items memory) (stack_of-store_top x slot memory)

  overlay-snoc :
      (slot : ℕ) (items : List (Option V)) (y : Option V) (memory : ℕ → V) (stack : List V)
      → overlay slot (items ++ y ∷ []) memory stack
        ≡ Option.get_or y (memory (slot + length items)) ∷ overlay slot items memory stack
  unfolding overlay
  overlay-snoc slot [] y memory stack = let e : slot + 0 ≡ slot = omega arith in rw e
  overlay-snoc slot (x ∷ items) y memory stack =
      let e : slot + suc (length items) ≡ slot + 1 + length items = omega arith in
      rw e (overlay-snoc (slot + 1) items y memory _)

  -- The deepest item comes first in the stores, the top of the stack last.
  overlay-reverse :
      (slot : ℕ) (y : Option V) (items : List (Option V)) (memory : ℕ → V) (stack : List V)
      → overlay slot (reverse (y ∷ items)) memory stack
        ≡ Option.get_or y (memory (slot + length items)) ∷ overlay slot (reverse items) memory stack
  overlay-reverse slot y items memory stack =
      ap (λ xs. overlay slot xs memory stack) (reverse-append (y ∷ []) items)
      ∙ overlay-snoc slot (reverse items) y memory stack
      ∙ ap (λ k. Option.get_or y (memory (slot + k)) ∷ overlay slot (reverse items) memory stack)
          (length-reverse items)

  overlay-locals :
      (slot : ℕ) (locals : List V) (items : List (Option V)) (memory : ℕ → V) (stack : List V)
      → overlay slot (reverse (map some locals ++ items)) memory stack
        ≡ locals ++ overlay slot (reverse items) memory stack
  overlay-locals slot [] items memory stack = refl
  overlay-locals slot (v ∷ locals) items memory stack =
      overlay-reverse slot (some v) (map some locals ++ items) memory stack
      ∙ ap (λ r. v ∷ r) (overlay-locals slot locals items memory stack)

  pub stack_of-from_index :
      (f : ℕ → V) (memory : ℕ → V) (k j : ℕ)
      → ((i : ℕ) → i < k → f (j + i) ≡ memory (k - i - 1))
      → stack_of memory k ≡ from_index f j k
  unfolding stack_of from_index
  stack_of-from_index f memory zero j h = refl
  stack_of-from_index f memory (suc k) j h =
      let e : j + 0 ≡ j = omega arith in
      let last : suc k - 0 - 1 ≡ k = omega arith in
      let first : f j ≡ memory k = ap f (sym e) ∙ h 0 (omega arith) ∙ ap memory last in
      rw (first, stack_of-from_index f memory k (j + 1) rest)
    where
      rest : (i : ℕ) → i < k → f (j + 1 + i) ≡ memory (k - i - 1)
      rest i lt =
          let e : j + 1 + i ≡ j + suc i = omega arith in
          let k' : suc k - suc i - 1 ≡ k - i - 1 = omega arith in
          ap f e ∙ h (suc i) (omega arith) ∙ ap memory k'

  -- What `finalize` writes of the fetched items, on top of the words below them.
  overlay-inputs :
      (f : ℕ → V) (memory : ℕ → V) (slot j : ℕ) (items : List (Option V))
      → ((i : ℕ)
          → i < slot + length items
          → f (j + i) ≡ Option.get_or (item items i) (memory (slot + length items - i - 1)))
      → overlay slot (reverse items) memory (stack_of memory slot)
        ≡ from_index f j (slot + length items)
  unfolding overlay item from_index
  overlay-inputs f memory slot j [] h =
      let e : slot + 0 ≡ slot = omega arith in
      rw e (
        stack_of-from_index f memory slot j
          (λ i lt. h i (omega arith) ∙ ap (λ k. memory (k - i - 1)) e))
  overlay-inputs f memory slot j (y ∷ items) h =
      let e : slot + suc (length items) ≡ suc (slot + length items) = omega arith in
      let first : f (j + 0) ≡ Option.get_or y (memory (slot + length items)) =
        h 0 (omega arith) ∙ ap (λ k. Option.get_or y (memory k)) (omega arith) in
      rw e (
        overlay-reverse slot y items memory (stack_of memory slot)
        ∙ ap₂ ◌∷◌ (sym first ∙ ap f (omega arith))
            (overlay-inputs f memory slot (j + 1) items rest))
    where
      rest :
          (i : ℕ)
          → i < slot + length items
          → f (j + 1 + i) ≡ Option.get_or (item items i) (memory (slot + length items - i - 1))
      rest i lt =
          let e : j + 1 + i ≡ j + suc i = omega arith in
          let k' : slot + suc (length items) - suc i - 1 ≡ slot + length items - i - 1 =
            omega arith in
          ap f e ∙ h (suc i) (omega arith) ∙ ap (λ k. Option.get_or (item items i) (memory k)) k'

  item-drop : (input : List (Option V)) (k i : ℕ) → item (drop k input) i ≡ item input (k + i)
  unfolding item
  item-drop input zero i = let e : 0 + i ≡ i = omega arith in rw e
  item-drop [] (suc k) i = refl
  item-drop (x ∷ input) (suc k) i =
      let e : suc k + i ≡ suc (k + i) = omega arith in rw e (item-drop input k i)

  map-reverse : (xs : List V) → map some (reverse xs) ≡ reverse (map some xs)
  map-reverse [] = refl
  map-reverse (x ∷ xs) =
      ap (map some) (reverse-append (x ∷ []) xs)
      ∙ map-append some (reverse xs) (x ∷ [])
      ∙ ap (λ r. r ++ some x ∷ []) (map-reverse xs)
      ∙ sym (reverse-append (some x ∷ []) (map some xs))

  module _ (memory : ℕ → V) (n : ℕ) (s : LocalStack V) (ok : IsSound s)
      (deep : length s.input ≤ n) where
    abbrev kept : List (Option V)
    kept = drop s.global_pops s.input

    abbrev base : ℕ
    base = n - length s.input

    abbrev load : ℕ → V
    load idx = memory (n - idx - 1)

    finalize-stores :
        finalize s n memory ≡ store_all base (reverse (map some s.local ++ kept)) memory
    unfolding finalize
    finalize-stores =
        let gp : ℕ = s.global_pops in
        let split : reverse s.input ≡ reverse kept ++ reverse (take gp s.input) =
          ap reverse (sym (take-append-drop gp s.input)) ∙ reverse-append (take gp s.input) kept in
        let items : reverse kept ++ map some (reverse s.local)
            ≡ reverse (map some s.local ++ kept) =
          ap (λ r. reverse kept ++ r) (map-reverse s.local)
          ∙ sym (reverse-append (map some s.local) kept) in
        rw split (
          finalize_loop-store_all (length s.input + length s.local - gp) base n gp (reverse kept)
            (reverse (take gp s.input)) (reverse s.local) memory (omega (arith, lengths, ok.popped))
            (omega (arith, lengths, ok.popped, deep))
          ∙ ap (λ r. store_all base r memory) items)
      where
        lengths :
            (length (reverse kept) ≡ length s.input - s.global_pops)
            × (length (reverse s.local) ≡ length s.local)
        lengths = (length-reverse kept ∙ length-drop s.global_pops s.input, length-reverse s.local)

    kept-held :
        (i : ℕ)
        → i < base + length kept
        → held load s.input (s.global_pops + i)
          ≡ Option.get_or (item kept i) (memory (base + length kept - i - 1))
    unfolding held
    kept-held i lt =
        let slot : n - (s.global_pops + i) - 1 ≡ base + length kept - i - 1 =
          omega (arith, length-drop s.global_pops s.input, ok.popped, deep) in
        rw (item-drop s.input s.global_pops i)
          (ap (λ k. Option.get_or (item s.input (s.global_pops + i)) (memory k)) slot)

    -- After the stores, the global stack at its new size is the view.
    pub finalize-view :
        stack_of (finalize s n memory) (n + length s.local - s.global_pops) ≡ view load n s
    unfolding view
    finalize-view =
        let all : List (Option V) = map some s.local ++ kept in
        rw finalize-stores (
          stack_of-store_all base (n + length s.local - s.global_pops) (reverse all) memory
            (omega (arith, length_all, length-drop s.global_pops s.input, ok.popped, deep))
          ∙ overlay-locals base s.local kept memory (stack_of memory base)
          ∙ ap (λ r. s.local ++ r)
              (overlay-inputs (held load s.input) memory base s.global_pops kept kept-held
                ∙ ap (from_index (held load s.input) s.global_pops)
                    (omega (arith, length-drop s.global_pops s.input, ok.popped, deep))))
      where
        length_all : length (reverse (map some s.local ++ kept)) ≡ length s.local + length kept
        length_all = omega (
          arith,
          length-reverse (map some s.local ++ kept),
          length-append (map some s.local) kept,
          length-map some s.local,
        )
