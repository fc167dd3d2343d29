-- ===== src/LocalStack/Steps.antt =====
-- The calls on the local stack against the same calls on its view.
use evmjit.Prelude.{
  ℕ, zero, suc, ◌+◌, ◌-◌, ◌≤◌, ◌<◌, ◌≡◌, refl, sym, ap, ◌∙◌, inl, inr, max, List, [], ◌∷◌, Bool,
  true, false, ◌&&◌, none, some, length, get_elem?, ltb, leb, Bool-cases, ltb→lt, ltb→le, arith,
  if◌then◌else◌,
}
use evmjit.Prelude.Int.{
  ℤ, pos, pos_part, neg_part, max_ℤ-pos, pos_part-sub_ℕ, neg_part-sub_ℕ, neg_part-min_ℤ,
}
use evmjit.LocalStack.{LocalStack, size, push, remove_top, pop, get}
use evmjit.LocalStack.Program.{push_word}
use evmjit.LocalStack.View.{view, held, from_index, IsSound}
use evmjit.LocalStack.Get.{IsGot, get-IsGot, length-view}

is_pos : (m : ℤ) (k : ℕ) → m ≡ pos k → m ≡ pos (pos_part m)
is_pos m k h = rw h

module _ {V : Type 0} where
  -- The demands made so far are met by a global stack of size `n`.
  abbrev pub fits : ℕ → LocalStack V → Bool
  fits n s = leb (neg_part s.min_size) n && leb (n + pos_part s.max_size) 1024

  -- A call keeps the invariant and takes back no demand.
  pub record IsStep (s t : LocalStack V) : Type 0 where
    pub sound : IsSound t
    pub deeper : neg_part s.min_size ≤ neg_part t.min_size
    pub higher : pos_part s.max_size ≤ pos_part t.max_size

  pub fits_before : (n : ℕ) (s t : LocalStack V) → IsStep s t → fits n s ≡ false → fits n t ≡ false
  fits_before n s t step h = ground (arith, step.deeper, step.higher)

  pub IsStep-trans : {s t u : LocalStack V} → IsStep s t → IsStep t u → IsStep s u
  IsStep-trans a b = record {
    sound = b.sound;
    deeper = omega (arith, a.deeper, b.deeper);
    higher = omega (arith, a.higher, b.higher);
  }

  -- `popped` items lie on a global stack that fits.
  pub popped-le : (n : ℕ) (s : LocalStack V) → IsSound s → fits n s ≡ true → s.global_pops ≤ n
  popped-le n s ok fit = ground (arith, ok.popped, ok.fetched)

  push_peak :
      (v : V) (s : LocalStack V)
      → IsSound s
      → (push v s).max_size ≡ pos (max (pos_part s.max_size) (length s.local + 1 - s.global_pops))
  unfolding push
  push_peak v s ok =
      rw (ok.peak, max_ℤ-pos, pos_part-sub_ℕ)
        (ap (λ (k : ℕ). pos (max (pos_part s.max_size) (k - s.global_pops))) (omega arith))

  pub push-IsStep : (v : V) (s : LocalStack V) → IsSound s → IsStep s (push v s)
  unfolding push
  push-IsStep v s ok = record {
    sound = record {
      fetched = ok.fetched;
      popped = ok.popped;
      peak = is_pos _ _ (push_peak v s ok);
    };
    deeper = omega arith;
    higher = omega (arith, ap pos_part (push_peak v s ok));
  }

  pub push_lem :
      (load : ℕ → V) (n : ℕ) (v : V) (s : LocalStack V)
      → IsSound s
      → fits n s ≡ true
      → push_word v (view load n s)
        ≡ (if fits n (push v s) then some (view load n (push v s)) else none)
  unfolding push_word push view
  push_lem load n v s ok fit = rw same_test
    where
      same_test : ltb (length (view load n s)) 1024 ≡ fits n (push v s)
      same_test =
          ground (arith, length-view load n s, ap pos_part (push_peak v s ok), popped-le n s ok fit)

  size_removed :
      (l : List V) (s : LocalStack V)
      → s.local ≡ l
      → neg_part (size (remove_top l s)) ≡ suc s.global_pops - length l
  unfolding remove_top
  size_removed [] s e = rw (neg_part-sub_ℕ, e) (omega arith)
  size_removed (x ∷ l) s e = rw neg_part-sub_ℕ (omega arith)

  from_index-cons :
      (f : ℕ → V) (k count : ℕ)
      → 0 < count
      → from_index f k count ≡ f k ∷ from_index f (k + 1) (count - 1)
  unfolding from_index
  from_index-cons f k zero h = absurd (omega arith)
  from_index-cons f k (suc count) h = let e : suc count - 1 ≡ count = omega arith in rw e

  head_of : (xs ys : List V) (x top : V) → xs ≡ x ∷ ys → get_elem? xs 0 ≡ some top → xs ≡ top ∷ ys
  head_of xs ys x top e h = let same : some x ≡ some top = rw e at h in rw e (ap (λ t. t ∷ ys) (cc))

  -- Removing the top leaves the rest of the view.
  view-remove_top :
      (load : ℕ → V) (n : ℕ) (l : List V) (s : LocalStack V)
      → s.local ≡ l
      → 0 < length (view load n s)
      → (top : V) → get_elem? (view load n s) 0 ≡ some top
      → view load n s ≡ top ∷ view load n (remove_top l s)
  unfolding remove_top view
  view-remove_top load n [] s e lt top h =
      let f = held load s.input in
      let gp : ℕ = s.global_pops in
      let count : n - gp - 1 ≡ n - (gp + 1) = omega arith in
      let below : 0 < n - gp = omega (arith, length-view load n s, lt, ap length e) in
      head_of _ _ (f gp) top (rw (e, from_index-cons f gp (n - gp) below, count)) h
  view-remove_top load n (x ∷ l) s e lt top h = head_of _ _ x top (rw e) h

  remove_min : (l : List V) (s : LocalStack V) → (remove_top l s).min_size ≡ s.min_size
  unfolding remove_top
  remove_min [] s = refl
  remove_min (x ∷ l) s = refl

  remove_max : (l : List V) (s : LocalStack V) → (remove_top l s).max_size ≡ s.max_size
  unfolding remove_top
  remove_max [] s = refl
  remove_max (x ∷ l) s = refl

  remove_input : (l : List V) (s : LocalStack V) → (remove_top l s).input ≡ s.input
  unfolding remove_top
  remove_input [] s = refl
  remove_input (x ∷ l) s = refl

  remove_pops :
      (l : List V) (s : LocalStack V)
      → (remove_top l s).global_pops ≡ s.global_pops + (1 - length l)
  unfolding remove_top
  remove_pops [] s = omega arith
  remove_pops (x ∷ l) s = omega arith

  length-zero : (l : List V) → length l ≤ 0 → l ≡ []
  length-zero [] h = refl
  length-zero (x ∷ l) h = absurd (omega arith)

  module _ (load : ℕ → V) (n : ℕ) (s : LocalStack V) (ok : IsSound s) where
    abbrev got : LocalStack V
    got = (get load 0 s).1

    abbrev left : LocalStack V
    left = remove_top got.local got

    got_lem : IsGot load n 0 s (get load 0 s)
    got_lem = get-IsGot load n 0 s ok

    -- The size that a `pop` demands, and its effect on the counters.
    pop_demand :
        neg_part (pop load s).1.min_size
        ≡ max (neg_part s.min_size) (suc s.global_pops - length s.local)
    unfolding pop
    pop_demand = omega (
      arith,
      neg_part-min_ℤ left.min_size (size left),
      ap neg_part (remove_min got.local got),
      size_removed got.local got refl,
      got_lem.demand,
      got_lem.same_pops,
      ap length got_lem.same_local,
    )

    pop_max : (pop load s).1.max_size ≡ s.max_size
    unfolding pop
    pop_max = remove_max got.local got ∙ got_lem.same_max

    pop_pops : (pop load s).1.global_pops ≡ s.global_pops + (1 - length s.local)
    unfolding pop
    pop_pops =
        omega (arith, remove_pops got.local got, got_lem.same_pops, ap length got_lem.same_local)

    pop_input : length (pop load s).1.input ≡ length got.input
    unfolding pop
    pop_input = ap length (remove_input got.local got)

    pops-le : s.global_pops + (1 - length s.local) ≤ length got.input
    pops-le = elim (Bool-cases (ltb 0 (length s.local))) [
      | inl has ↦ omega (arith, ltb→lt _ _ has, got_lem.sound.popped, got_lem.same_pops)
      | inr has_none ↦ omega (arith, got_lem.present (ltb→le _ _ has_none))
    ]

    pub pop-IsStep : IsStep s (pop load s).1
    pop-IsStep = record {
      sound = record {
        fetched = omega (arith, pop_demand, pop_input, got_lem.sound.fetched, got_lem.demand);
        popped = omega (arith, pop_input, pop_pops, pops-le);
        peak = is_pos _ _ (pop_max ∙ ok.peak);
      };
      deeper = omega (arith, pop_demand);
      higher = omega (arith, ap pos_part pop_max);
    }

    taken : 0 < length (view load n s) → view load n s ≡ (pop load s).0 ∷ view load n (pop load s).1
    unfolding pop view
    taken lt =
        let g = got_lem in
        let lt' : 0 < length (view load n got) = rw g.same_view lt in
        let top : get_elem? (view load n got) 0 ≡ some (get load 0 s).0 =
          rw g.same_view (g.value lt) in
        sym g.same_view ∙ view-remove_top load n got.local got refl lt' (get load 0 s).0 top

    -- A `pop` takes the top of the view if there is one, and there is one if the stack still fits.
    pub pop_lem :
        fits n s ≡ true
        → view load n s
          ≡ (if fits n (pop load s).1 then (pop load s).0 ∷ view load n (pop load s).1 else [])
    pop_lem fit = elim (Bool-cases (ltb 0 (length (view load n s)))) [
      | inl some_left ↦ rw (same_test ∙ some_left) (taken (ltb→lt _ _ some_left))
      | inr no_left ↦ rw (same_test ∙ no_left) (length-zero (view load n s) (ltb→le _ _ no_left))
    ]
      where
        same_test : fits n (pop load s).1 ≡ ltb 0 (length (view load n s))
        same_test =
            ground
              (arith, pop_demand, ap pos_part pop_max, length-view load n s, popped-le n s ok fit)
