-- ===== src/LocalStack/Exchange.antt =====
-- `LocalStack::dup`, `LocalStack::set` and `LocalStack::swap` against their views.

use evmjit.Prelude.{
  ℕ, zero, suc, ◌+◌, ◌-◌, ◌≤◌, ◌<◌, ◌≡◌, refl, sym, ap, ◌∙◌, inl, inr, ◌++◌, true, false, none,
  some, length, get_elem?-none, set as set_elem, set-append_left, set-append_right, ltb, ◌==◌,
  Bool-cases, lt→eqb, ltb→lt, ltb→le, arith, if◌then◌else◌,
}
use evmjit.Prelude.Int.{pos_part}
use evmjit.LocalStack.{LocalStack, push, get, set, dup}
use evmjit.LocalStack.Program.{dup_word}
use evmjit.LocalStack.View.{view, held, from_index, IsSound, from_index-congr}
use evmjit.LocalStack.Get.{IsGot, get-IsGot, length-view, item-set}
use evmjit.LocalStack.Steps.{
  fits, IsStep, IsStep-trans, fits_before, popped-le, push-IsStep, push_lem,
}

module _ {V : Type 0} (load : ℕ → V) (n index : ℕ) (s : LocalStack V) (ok : IsSound s) where
  abbrev got : LocalStack V
  got = (get load index s).1

  got_lem : IsGot load n index s (get load index s)
  got_lem = get-IsGot load n index s ok

  pub get-IsStep : IsStep s got
  get-IsStep = record {
    sound = got_lem.sound;
    deeper = omega (arith, got_lem.demand);
    higher = omega (arith, ap pos_part got_lem.same_max);
  }

  -- A global stack that fits has the item if and only if it fits still.
  pub fits-get : fits n s ≡ true → fits n got ≡ ltb index (length (view load n s))
  fits-get fit = ground (
    arith,
    got_lem.demand,
    ap pos_part got_lem.same_max,
    length-view load n s,
    popped-le n s ok fit,
  )

  pub dup-IsStep : IsStep s (dup load index s)
  unfolding dup
  dup-IsStep = IsStep-trans get-IsStep (push-IsStep (get load index s).0 got got_lem.sound)

  pub dup_lem :
      fits n s ≡ true
      → dup_word index (view load n s)
        ≡ (if fits n (dup load index s) then some (view load n (dup load index s)) else none)
  unfolding dup dup_word
  dup_lem fit = elim (Bool-cases (ltb index (length (view load n s)))) [
    | inl there ↦
        let fit' : fits n got ≡ true = fits-get fit ∙ there in
        let pushed = push_lem load n (get load index s).0 got got_lem.sound fit' in
        rw (got_lem.value (ltb→lt _ _ there), dup_word) (rw got_lem.same_view at pushed)
    | inr missing ↦
        let unfit : fits n got ≡ false = fits-get fit ∙ missing in
        rw (
          get_elem?-none (view load n s) index (ltb→le _ _ missing),
          dup_word,
          fits_before n got (push (get load index s).0 got) (push-IsStep _ got got_lem.sound) unfit,
        )
  ]

same : (k : ℕ) → (k == k + 0) ≡ true
same k = ground arith

lt→ne : (j k : ℕ) → k < j → (j == k) ≡ false
lt→ne j k h = ground arith

module _ {V : Type 0} where
  set-from_index :
      (f g : ℕ → V) (k count i : ℕ) (v : V)
      → ((j : ℕ) → g j ≡ (if j == k + i then v else f j))
      → i < count
      → from_index g k count ≡ set_elem (from_index f k count) i v
  unfolding from_index
  set-from_index f g k zero i v h lt = absurd (omega arith)
  set-from_index f g k (suc count) zero v h lt =
      let first : g k ≡ v = h k ∙ rw (same k) refl in
      rw (
        first,
        from_index-congr g f (k + 1) count (λ j p _. h j ∙ rw (lt→ne j (k + 0) (omega arith)) refl),
      )
  set-from_index f g k (suc count) (suc i) v h lt =
      let first : g k ≡ f k = h k ∙ rw (lt→eqb k (k + suc i) (omega arith)) refl in
      let e : k + suc i ≡ k + 1 + i = omega arith in
      rw (first, set-from_index f g (k + 1) count i v (λ j. rw (← e) (h j)) (omega arith))

  held-set :
      (load : ℕ → V) (s : LocalStack V) (i : ℕ) (word : V)
      → i + s.global_pops < length s.input
      → (j : ℕ)
      → held load (set_elem s.input (i + s.global_pops) (some word)) j
        ≡ (if j == s.global_pops + i then word else held load s.input j)
  unfolding held
  held-set load s i word lt j = elim (Bool-cases (j == s.global_pops + i)) [
    | inl same ↦
        let e : (j == i + s.global_pops) ≡ true = ground arith in
        rw (item-set s.input (i + s.global_pops) j word lt, same, e)
    | inr other ↦
        let e : (j == i + s.global_pops) ≡ false = ground arith in
        rw (item-set s.input (i + s.global_pops) j word lt, other, e)
  ]

  -- What `set` needs of its caller: the item is there, and fetched if it is no local item.
  pub record IsPresent (load : ℕ → V) (n index : ℕ) (s : LocalStack V) : Type 0 where
    pub there : index < length (view load n s)
    pub fetched : length s.local ≤ index → index - length s.local + s.global_pops < length s.input

  pub set_lem :
      (load : ℕ → V) (n index : ℕ) (word : V) (s : LocalStack V)
      → IsPresent load n index s
      → view load n (set index word s) ≡ set_elem (view load n s) index word
  unfolding set view
  set_lem load n index word s p = elim (Bool-cases (ltb index (length s.local))) [
    | inl local ↦ rw local (sym (set-append_left s.local _ index word (ltb→lt _ _ local)))
    | inr below ↦
        let le = ltb→le _ _ below in
        let i : ℕ = index - length s.local in
        let inside : i < n - s.global_pops = omega (arith, p.there, length-view load n s, le) in
        let rest =
          set-from_index (held load s.input)
            (held load (set_elem s.input (i + s.global_pops) (some word))) s.global_pops
            (n - s.global_pops) i word (held-set load s i word (p.fetched le)) inside in
        rw (below, set-append_right s.local _ index word le) (ap (λ r. s.local ++ r) rest)
  ]
