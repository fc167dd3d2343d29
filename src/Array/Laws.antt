-- ===== src/Array/Laws.antt =====
-- Arrays as lists of their elements.
use mathlib.Core.List.{append_assoc, append-nil}
use evmjit.Prelude.{
  ℕ, zero, suc, ◌+◌, ◌-◌, ◌*◌, ◌^◌, ◌≤◌, ◌<◌, ◌≡◌, refl, sym, ap, ◌∙◌, inl, inr, List, [], ◌∷◌,
  ◌++◌, length, length-append, set, replicate, get_elem?, some, get_elem?-append_left,
  get_elem?-append_right, set-append_left, set-append_right, ◌==◌, Bool-cases, lt→eqb, eqb_refl,
  arith,
}
use evmjit.Array.{Array, array_push, array_extend, array_set, array_get, write_at, mem_set}

-- The first `n` elements.
unfoldable pub first : (ℕ → ℕ) → ℕ → List ℕ
first data_at zero = []
first data_at (suc n) = first data_at n ++ data_at n ∷ []

abbrev pub elements : Array → List ℕ
elements a = first a.data_at a.size

-- What the C library says of `realloc`: the bytes below the new size are kept. An element of `width`
-- bytes is kept where it lies below the new size.
abbrev pub Keeps : ℕ → ((ℕ → ℕ) → ℕ → ℕ → ℕ) → Type 0
Keeps width realloc =
    (data_at : ℕ → ℕ) (bytes i : ℕ) → (i + 1) * width ≤ bytes → realloc data_at bytes i ≡ data_at i

first-agree : (f g : ℕ → ℕ) (n : ℕ) → ((i : ℕ) → i < n → f i ≡ g i) → first f n ≡ first g n
unfolding first
first-agree f g zero h = refl
first-agree f g (suc n) h =
    let same = first-agree f g n (λ i lt. h i (omega arith)) in
    let last = h n (omega arith) in rw (same, last)

pub length-first : (f : ℕ → ℕ) (n : ℕ) → length (first f n) ≡ n
unfolding first
length-first f zero = refl
length-first f (suc n) = omega (arith, length-append (first f n) (f n ∷ []), length-first f n)

-- A write behind the first `n` elements.
first_untouched : (f : ℕ → ℕ) (n i v : ℕ) → n ≤ i → first (write_at f i v) n ≡ first f n
first_untouched f n i v h =
    first-agree (write_at f i v) f n (λ j lt. rw (lt→eqb j i (omega (arith, h, lt))) refl)

first-write_at : (f : ℕ → ℕ) (n i v : ℕ) → i < n → first (write_at f i v) n ≡ set (first f n) i v
unfolding first
first-write_at f zero i v h = absurd (omega arith)
first-write_at f (suc n) i v h = elim (Bool-cases (n == i)) [
  | inl last ↦
      let at : i ≡ n = ground arith in
      let here : i - length (first f n) ≡ 0 = omega (arith, length-first f n, at) in
      rw
        (
          last,
          set-append_right (first f n) (f n ∷ []) i v (omega (arith, length-first f n, at)),
          here,
        )
        (ap (λ xs. xs ++ v ∷ []) (first_untouched f n i v (omega (arith, at))))
  | inr before ↦
      let below : i < n = ground arith in
      rw
        (
          before,
          set-append_left (first f n) (f n ∷ []) i v (omega (arith, length-first f n, below)),
        )
        (ap (λ xs. xs ++ f n ∷ []) (first-write_at f n i v below))
]

replicate-snoc : (k v : ℕ) → replicate (suc k) v ≡ replicate k v ++ v ∷ []
replicate-snoc zero v = refl
replicate-snoc (suc k) v = ap (λ xs. v ∷ xs) (replicate-snoc k v)

-- Elements that follow the first `n` and are all alike.
first-replicate :
    (f : ℕ → ℕ) (v n k : ℕ)
    → ((i : ℕ) → n ≤ i → i < n + k → f i ≡ v)
    → first f (n + k) ≡ first f n ++ replicate k v
unfolding first
first-replicate f v n zero h =
    let e : n + 0 ≡ n = omega arith in rw e (sym (append-nil (first f n)))
first-replicate f v n (suc k) h =
    let e : n + suc k ≡ suc (n + k) = omega arith in
    rw
      (
        e,
        h (n + k) (omega arith) (omega arith),
        first-replicate f v n k (λ i lo hi. h i lo (omega (arith, hi))),
        replicate-snoc k v,
      )
      (append_assoc (first f n) (replicate k v) (v ∷ []))

get_elem?-first : (f : ℕ → ℕ) (n i : ℕ) → i < n → get_elem? (first f n) i ≡ some (f i)
unfolding first
get_elem?-first f zero i h = absurd (omega arith)
get_elem?-first f (suc n) i h = elim (Bool-cases (n == i)) [
  | inl last ↦
      let at : i ≡ n = ground arith in
      let here : i - length (first f n) ≡ 0 = omega (arith, length-first f n, at) in
      get_elem?-append_right (first f n) (f n ∷ []) i (omega (arith, length-first f n, at))
      ∙ rw here (ap (λ k. some (f k)) (sym at))
  | inr before ↦
      let below : i < n = ground arith in
      get_elem?-append_left (first f n) (f n ∷ []) i (omega (arith, length-first f n, below))
      ∙ get_elem?-first f n i below
]

written_behind :
    (f g : ℕ → ℕ) (n v : ℕ)
    → ((i : ℕ) → i < n → f i ≡ g i)
    → first (write_at f n v) (n + 1) ≡ first g n ++ v ∷ []
unfolding first
written_behind f g n v same =
    let e : n + 1 ≡ suc n = omega arith in
    rw (e, eqb_refl n, first_untouched f n n v (omega arith), first-agree f g n same) refl

mem_set-below : (f : ℕ → ℕ) (start v count i : ℕ) → i < start → mem_set f start v count i ≡ f i
mem_set-below f start v count i h = ground arith

mem_set-inside :
    (f : ℕ → ℕ) (start v count i : ℕ)
    → start ≤ i
    → i < start + count
    → mem_set f start v count i ≡ v
mem_set-inside f start v count i lo hi = ground arith

module _ (realloc : (ℕ → ℕ) → ℕ → ℕ → ℕ) (a : Array) where
  -- `array.push` puts the value behind the elements, also where it has to allocate, and keeps the
  -- size within the capacity. `realloc` keeps the words below the new size.
  pub array_push-elements :
      (value : ℕ)
      → a.size ≤ a.cap
      → Keeps 32 realloc
      → (elements (array_push realloc a value) ≡ elements a ++ value ∷ [])
        × ((array_push realloc a value).size ≤ (array_push realloc a value).cap)
  unfolding array_push
  array_push-elements value within keeps = elim (Bool-cases (a.cap == a.size)) [
    | inl full ↦
        let f : ℕ → ℕ = realloc a.data_at ((a.cap + 1) * 2 ^ 5) in
        rw full (
          written_behind f a.data_at a.size value
              (λ i lt. keeps a.data_at ((a.cap + 1) * 2 ^ 5) i (omega (arith, lt, within))),
          omega (arith, within),
        )
    | inr room ↦
        rw room
          (written_behind a.data_at a.data_at a.size value (λ i lt. refl), ground (arith, within))
  ]

  -- `array.extend` puts zeros behind the elements, up to the new size, which is the capacity then.
  -- `realloc` keeps the bytes below the new size.
  pub array_extend-elements :
      (new_size : ℕ)
      → a.size ≤ new_size
      → Keeps 1 realloc
      → (elements (array_extend realloc a new_size) ≡ elements a ++ replicate (new_size - a.size) 0)
        × ((array_extend realloc a new_size).size ≤ (array_extend realloc a new_size).cap)
  unfolding array_extend
  array_extend-elements new_size larger keeps =
      let count : ℕ = new_size - a.size in
      let f : ℕ → ℕ = mem_set (realloc a.data_at new_size) a.size 0 count in
      let whole : new_size ≡ a.size + count = omega (arith, larger) in
      let old : first f a.size ≡ first a.data_at a.size = first-agree f a.data_at a.size (λ i lt.
        mem_set-below (realloc a.data_at new_size) a.size 0 count i lt
        ∙ keeps a.data_at new_size i (omega (arith, lt, larger))) in
      (
        ap (first f) whole
            ∙ first-replicate f 0 a.size count
                (mem_set-inside (realloc a.data_at new_size) a.size 0 count)
            ∙ ap (λ xs. xs ++ replicate count 0) old,
        omega arith,
      )

-- Below the size, `array.set` changes one element and no other, and `array.get` reads the element.
pub array_set-array_get :
    (a : Array) (index value : ℕ)
    → index < a.size
    → (elements (array_set a index value) ≡ set (elements a) index value)
      × (get_elem? (elements a) index ≡ some (array_get a index))
unfolding array_set array_get
array_set-array_get a index value inside = (
  first-write_at a.data_at a.size index value inside,
  get_elem?-first a.data_at a.size index inside,
)
