-- ===== src/LocalStack/Get.antt =====
-- `LocalStack::get` against the item of the view, and the depth that it asks of the global stack.

use evmjit.Prelude.{
  ℕ, zero, suc, ◌+◌, ◌-◌, ◌≤◌, ◌<◌, ◌≡◌, refl, sym, ap, ◌∙◌, inl, inr, max, List, [], ◌∷◌, ◌++◌,
  Option, none, some, length, length-append, get_elem?, set as set_elem, length-set, get_elem?-lt,
  get_elem?-le, get_elem?-append_left, get_elem?-append_right, leb, ◌==◌, Option-cases, Bool-cases,
  tests, arith, if◌then◌else◌,
}
use evmjit.Prelude.Int.{negsuc, neg_part, neg_part-min_ℤ}
use evmjit.LocalStack.{LocalStack, item, resize, fetch, get}
use evmjit.LocalStack.View.{
  held, view, from_index, IsSound, length-from_index, from_index-congr, get_elem?-from_index,
}

module _ {V : Type 0} where
  item-lt : (input : List (Option V)) (i : ℕ) {v : V} → item input i ≡ some v → i < length input
  unfolding item
  item-lt [] i h = cc
  item-lt (x ∷ input) zero h = omega arith
  item-lt (x ∷ input) (suc i) h = omega (arith, item-lt input i h)

  length-resize : (input : List (Option V)) (n : ℕ) → length (resize input n) ≡ n
  unfolding resize
  length-resize input zero = refl
  length-resize [] (suc n) = ap suc (length-resize [] n)
  length-resize (x ∷ input) (suc n) = ap suc (length-resize input n)

  item-resize :
      (input : List (Option V)) (n j : ℕ)
      → length input ≤ n
      → item (resize input n) j ≡ item input j
  unfolding item resize
  item-resize [] zero j h = refl
  item-resize [] (suc n) zero h = refl
  item-resize [] (suc n) (suc j) h = item-resize [] n j (omega arith)
  item-resize (x ∷ input) zero j h = absurd (omega arith)
  item-resize (x ∷ input) (suc n) zero h = refl
  item-resize (x ∷ input) (suc n) (suc j) h = item-resize input n j (omega arith)

  pub item-set :
      (input : List (Option V)) (i j : ℕ) (v : V)
      → i < length input
      → item (set_elem input i (some v)) j ≡ (if j == i then some v else item input j)
  unfolding item
  item-set [] i j v h = absurd (omega arith)
  item-set (x ∷ input) zero zero v h = refl
  item-set (x ∷ input) zero (suc j) v h = ground arith
  item-set (x ∷ input) (suc i) zero v h = ground arith
  item-set (x ∷ input) (suc i) (suc j) v h = ground (arith, item-set input i j v (omega arith))

  -- What `fetch` at `idx` gives: the item as it was seen, everything seen as before, and the demand
  -- for a stack deeper than `idx`.
  pub record IsFetched (load : ℕ → V) (idx : ℕ) (s : LocalStack V) (r : V × LocalStack V)
      : Type 0 where
    pub value : r.0 ≡ held load s.input idx
    pub same_local : r.1.local ≡ s.local
    pub same_pops : r.1.global_pops ≡ s.global_pops
    pub same_max : r.1.max_size ≡ s.max_size
    pub same_held : (j : ℕ) → held load r.1.input j ≡ held load s.input j
    pub present : idx < length r.1.input
    pub grows : length s.input ≤ length r.1.input
    pub demand : neg_part r.1.min_size ≡ max (neg_part s.min_size) (suc idx)
    pub sound : IsSound r.1

  module _ (load : ℕ → V) (idx : ℕ) (s : LocalStack V) (ok : IsSound s) where
    abbrev grown : List (Option V)
    grown = if leb (length s.input) idx then resize s.input (idx + 1) else s.input

    item-grown : (j : ℕ) → item grown j ≡ item s.input j
    item-grown j = elim (Bool-cases (leb (length s.input) idx)) [
      | inl short ↦ rw short (item-resize s.input (idx + 1) j (omega tests))
      | inr long ↦ rw long
    ]

    length-grown : length grown ≡ max (length s.input) (idx + 1)
    length-grown = elim (Bool-cases (leb (length s.input) idx)) [
      | inl short ↦ rw (short, length-resize) (omega tests)
      | inr long ↦ rw long (omega tests)
    ]

    -- An item that has to be loaded.
    held-load :
        item grown idx ≡ none
        → (j : ℕ) → held load (set_elem grown idx (some (load idx))) j ≡ held load s.input j
    unfolding held
    held-load absent j = elim (Bool-cases (j == idx)) [
      | inl same ↦
          let e : j ≡ idx = ground arith in
          rw (
            item-set grown idx j (load idx) (omega (arith, length-grown)),
            same,
            e,
            ← item-grown idx,
            absent,
          )
      | inr other ↦
          rw (item-set grown idx j (load idx) (omega (arith, length-grown)), other, item-grown j)
    ]

    pub fetch-IsFetched : IsFetched load idx s (fetch load idx s)
    unfolding fetch held
    fetch-IsFetched = elim (Option-cases (item grown idx)) [
      | inl absent ↦
          rw (absent, fetch)
            record {
              value = rw (← item-grown idx, absent);
              same_local = refl;
              same_pops = refl;
              same_max = refl;
              same_held = held-load absent;
              present = omega (arith, length-set grown idx (some (load idx)), length-grown);
              grows = omega (arith, length-set grown idx (some (load idx)), length-grown);
              demand = neg_part-min_ℤ s.min_size (negsuc idx);
              sound = record {
                fetched = omega (
                  arith,
                  length-set grown idx (some (load idx)),
                  length-grown,
                  neg_part-min_ℤ s.min_size (negsuc idx),
                  ok.fetched,
                );
                popped =
                    omega (arith, length-set grown idx (some (load idx)), length-grown, ok.popped);
                peak = ok.peak;
              };
            }
      | inr (v, found) ↦
          let inside : idx < length s.input = item-lt s.input idx (sym (item-grown idx) ∙ found) in
          rw (found, fetch)
            record {
              value = rw (← item-grown idx, found);
              same_local = refl;
              same_pops = refl;
              same_max = refl;
              same_held = λ j. rw (item-grown j);
              present = omega (arith, length-grown);
              grows = omega (arith, length-grown);
              demand = omega (arith, inside, ok.fetched);
              sound = record {
                fetched = omega (arith, length-grown, inside, ok.fetched);
                popped = omega (arith, length-grown, ok.popped);
                peak = ok.peak;
              };
            }
    ]

-- What `get` at `index` gives, above a global stack of size `n` that is deep enough so far.
pub record IsGot {V : Type 0} (load : ℕ → V) (n index : ℕ) (s : LocalStack V) (r : V × LocalStack V)
    : Type 0 where
  pub same_local : r.1.local ≡ s.local
  pub same_pops : r.1.global_pops ≡ s.global_pops
  pub same_max : r.1.max_size ≡ s.max_size
  pub same_view : view load n r.1 ≡ view load n s
  pub value : index < length (view load n s) → get_elem? (view load n s) index ≡ some r.0
  pub present : length s.local ≤ index → index - length s.local + s.global_pops < length r.1.input
  pub grows : length s.input ≤ length r.1.input
  pub demand :
      neg_part r.1.min_size ≡ max (neg_part s.min_size) (suc index + s.global_pops - length s.local)
  pub sound : IsSound r.1

module _ {V : Type 0} (load : ℕ → V) (n : ℕ) where
  pub length-view :
      (s : LocalStack V) → length (view load n s) ≡ length s.local + (n - s.global_pops)
  unfolding view
  length-view s = omega (
    arith,
    length-append s.local (from_index (held load s.input) s.global_pops (n - s.global_pops)),
    length-from_index (held load s.input) s.global_pops (n - s.global_pops),
  )

  view-congr :
      (s t : LocalStack V)
      → t.local ≡ s.local
      → t.global_pops ≡ s.global_pops
      → ((j : ℕ) → held load t.input j ≡ held load s.input j)
      → view load n t ≡ view load n s
  unfolding view
  view-congr s t l p h =
      rw (l, p)
        (ap (λ r. s.local ++ r)
          (from_index-congr _ _ s.global_pops (n - s.global_pops) (λ j _ _. h j)))

  module _ (index : ℕ) (s : LocalStack V) (ok : IsSound s) where
    view-local :
        (v : V) → get_elem? s.local index ≡ some v → get_elem? (view load n s) index ≡ some v
    unfolding view
    view-local v e = rw (get_elem?-append_left s.local _ index (get_elem?-lt s.local index e)) e

    view-held :
        length s.local ≤ index
        → index < length (view load n s)
        → get_elem? (view load n s) index
          ≡ some (held load s.input (index - length s.local + s.global_pops))
    unfolding view
    view-held le lt =
        let gp : ℕ = s.global_pops in
        let inside : index - length s.local < n - gp = omega (arith, length-view s, lt, le) in
        let e : gp + (index - length s.local) ≡ index - length s.local + gp = omega arith in
        get_elem?-append_right s.local _ index le
        ∙ rw (← e)
            (get_elem?-from_index (held load s.input) gp (n - gp) (index - length s.local) inside)

    pub get-IsGot : IsGot load n index s (get load index s)
    unfolding get
    get-IsGot = elim (Option-cases (get_elem? s.local index)) [
      | inl below ↦
          let le : length s.local ≤ index = get_elem?-le s.local index below in
          let f = fetch-IsFetched load (index - length s.local + s.global_pops) s ok in
          rw (below, get)
            record {
              same_local = f.same_local;
              same_pops = f.same_pops;
              same_max = f.same_max;
              same_view = view-congr s _ f.same_local f.same_pops f.same_held;
              value = λ lt. view-held le lt ∙ ap some (sym f.value);
              present = λ _. f.present;
              grows = f.grows;
              demand = omega (arith, f.demand, le);
              sound = f.sound;
            }
      | inr (v, found) ↦
          let lt : index < length s.local = get_elem?-lt s.local index found in
          rw (found, get)
            record {
              same_local = refl;
              same_pops = refl;
              same_max = refl;
              same_view = refl;
              value = λ _. view-local v found;
              present = λ le. absurd (omega (arith, lt, le));
              grows = omega arith;
              demand = omega (arith, ok.fetched, ok.popped, lt);
              sound = ok;
            }
    ]
