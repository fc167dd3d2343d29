-- ===== src/LocalStack/View.antt =====
-- The stack of words that a local stack stands for, above a global stack of a given size.
use mathlib.Core.Option
use evmjit.Prelude.{
  ℕ, zero, suc, ◌+◌, ◌-◌, ◌≤◌, ◌<◌, ◌≡◌, refl, ap, List, [], ◌∷◌, ◌++◌, Option, some, length,
  get_elem?, arith,
}
use evmjit.Prelude.Int.{pos, pos_part, neg_part}
use evmjit.LocalStack.{LocalStack, item}

module _ {V : Type 0} where
  -- The words on a global stack, top first.
  unfoldable pub stack_of : (ℕ → V) → ℕ → List V
  stack_of memory zero = []
  stack_of memory (suc size) = memory size ∷ stack_of memory size

  -- `f k`, `f (k + 1)` and so on, `count` of them.
  unfoldable pub from_index : (ℕ → V) → ℕ → ℕ → List V
  from_index f k zero = []
  from_index f k (suc count) = f k ∷ from_index f (k + 1) count

  -- The item `idx` places below the top of the global stack, as the block sees it.
  unfoldable pub held : (ℕ → V) → List (Option V) → ℕ → V
  unfolding item
  held load input idx = Option.get_or (item input idx) (load idx)

  unfoldable pub view : (ℕ → V) → ℕ → LocalStack V → List V
  unfolding from_index held
  view load n s = s.local ++ from_index (held load s.input) s.global_pops (n - s.global_pops)

  -- What every call keeps: no fetched item lies deeper than the size that is asked for, the popped
  -- items have been fetched, and the greatest size is not negative.
  pub record IsSound (s : LocalStack V) : Type 0 where
    pub fetched : length s.input ≤ neg_part s.min_size
    pub popped : s.global_pops ≤ length s.input
    pub peak : s.max_size ≡ pos (pos_part s.max_size)

  -- The global stack is deep enough and has room enough for what has been compiled so far.
  pub record Fits (n : ℕ) (s : LocalStack V) : Type 0 where
    pub deep : neg_part s.min_size ≤ n
    pub room : n + pos_part s.max_size ≤ 1024

  pub from_index-congr :
      (f g : ℕ → V) (k count : ℕ)
      → ((i : ℕ) → k ≤ i → i < k + count → f i ≡ g i)
      → from_index f k count ≡ from_index g k count
  unfolding from_index
  from_index-congr f g k zero h = refl
  from_index-congr f g k (suc count) h =
      rw (h k (omega arith) (omega arith), from_index-congr f g (k + 1) count rest)
    where
      rest : (i : ℕ) → k + 1 ≤ i → i < k + 1 + count → f i ≡ g i
      rest i p q = h i (omega arith) (omega arith)

  pub length-from_index : (f : ℕ → V) (k count : ℕ) → length (from_index f k count) ≡ count
  unfolding from_index
  length-from_index f k zero = refl
  length-from_index f k (suc count) = ap suc (length-from_index f (k + 1) count)

  pub get_elem?-from_index :
      (f : ℕ → V) (k count i : ℕ)
      → i < count
      → get_elem? (from_index f k count) i ≡ some (f (k + i))
  unfolding from_index
  get_elem?-from_index f k zero i h = absurd (omega arith)
  get_elem?-from_index f k (suc count) zero h = let e : k + 0 ≡ k = omega arith in rw e
  get_elem?-from_index f k (suc count) (suc i) h =
      let e : k + suc i ≡ k + 1 + i = omega arith in
      rw e (get_elem?-from_index f (k + 1) count i (omega arith))
