-- ===== src/LocalStack/Swap.antt =====
-- `LocalStack::swap` against its view.
use evmjit.Prelude.{
  ℕ, suc, ◌+◌, ◌-◌, ◌≤◌, ◌<◌, ◌≡◌, refl, sym, ap, ◌∙◌, inl, inr, List, [], ◌∷◌, true, none, some,
  length, length-set, get_elem?, get_elem?-none, set as set_elem, ltb, Bool-cases, ltb→lt, ltb→le,
  arith, if◌then◌else◌,
}
use evmjit.Prelude.Int.{pos, pos_part, neg_part}
use evmjit.LocalStack.{LocalStack, get, set, swap}
use evmjit.LocalStack.Program.{swap_words}
use evmjit.LocalStack.View.{view, IsSound}
use evmjit.LocalStack.Get.{IsGot, get-IsGot, length-view}
use evmjit.LocalStack.Steps.{fits, IsStep, IsStep-trans, popped-le}
use evmjit.LocalStack.Exchange.{get-IsStep, IsPresent, set_lem}

module _ {V : Type 0} where
  swap_words_lem :
      (i : ℕ) (w : List V) (tos val : V)
      → get_elem? w 0 ≡ some tos
      → get_elem? w (suc i) ≡ some val
      → swap_words i w ≡ some (set_elem (set_elem w (suc i) tos) 0 val)
  unfolding swap_words
  swap_words_lem i [] tos val h k = cc
  swap_words_lem i (x ∷ below) tos val h k =
      let e : x ≡ tos = cc in rw (k, swap_words) (ap (λ t. some (val ∷ set_elem below i t)) e)

  swap_words-none : (i : ℕ) (w : List V) → length w ≤ suc i → swap_words i w ≡ none
  unfolding swap_words
  swap_words-none i [] h = refl
  swap_words-none i (x ∷ below) h = rw (get_elem?-none below i (omega arith), swap_words)

  -- `set` leaves all the counters and lengths alone.
  record IsSame (s t : LocalStack V) : Type 0 where
    same_length : length t.local ≡ length s.local
    same_input : length t.input ≡ length s.input
    same_pops : t.global_pops ≡ s.global_pops
    same_min : t.min_size ≡ s.min_size
    same_max : t.max_size ≡ s.max_size

  set-IsSame : (index : ℕ) (word : V) (s : LocalStack V) → IsSame s (set index word s)
  unfolding set
  set-IsSame index word s = elim (Bool-cases (ltb index (length s.local))) [
    | inl local ↦
        rw (local, set)
          record {
            same_length = length-set s.local index word;
            same_input = refl;
            same_pops = refl;
            same_min = refl;
            same_max = refl;
          }
    | inr below ↦
        rw (below, set)
          record {
            same_length = refl;
            same_input = length-set s.input (index - length s.local + s.global_pops) (some word);
            same_pops = refl;
            same_min = refl;
            same_max = refl;
          }
  ]

  IsSame-IsStep : {s t : LocalStack V} → IsSound s → IsSame s t → IsStep s t
  IsSame-IsStep {s} {t} ok same = record {
    sound = record {
      fetched = omega (arith, ok.fetched, same.same_input, ap neg_part same.same_min);
      popped = omega (arith, ok.popped, same.same_input, same.same_pops);
      peak = same.same_max ∙ ok.peak ∙ ap (λ m. pos (pos_part m)) (sym same.same_max);
    };
    deeper = omega (arith, ap neg_part same.same_min);
    higher = omega (arith, ap pos_part same.same_max);
  }

  module _ (load : ℕ → V) (n i : ℕ) (s : LocalStack V) (ok : IsSound s) where
    abbrev got_val : V × LocalStack V
    got_val = get load (i + 1) s

    abbrev got_tos : V × LocalStack V
    got_tos = get load 0 got_val.1

    abbrev set_below : LocalStack V
    set_below = set (i + 1) got_tos.0 got_tos.1

    val_lem : IsGot load n (i + 1) s got_val
    val_lem = get-IsGot load n (i + 1) s ok

    tos_lem : IsGot load n 0 got_val.1 got_tos
    tos_lem = get-IsGot load n 0 got_val.1 val_lem.sound

    below-IsSame : IsSame got_tos.1 set_below
    below-IsSame = set-IsSame (i + 1) got_tos.0 got_tos.1

    both-IsSame : IsSame set_below (swap load (i + 1) s)
    unfolding swap
    both-IsSame = set-IsSame 0 got_val.0 set_below

    after_sets : IsStep got_tos.1 (swap load (i + 1) s)
    after_sets =
        let below = IsSame-IsStep tos_lem.sound below-IsSame in
        IsStep-trans below (IsSame-IsStep below.sound both-IsSame)

    pub swap-IsStep : IsStep s (swap load (i + 1) s)
    swap-IsStep =
        IsStep-trans (get-IsStep load n (i + 1) s ok)
          (IsStep-trans (get-IsStep load n 0 got_val.1 val_lem.sound) after_sets)

    fits-swap :
        fits n s ≡ true → fits n (swap load (i + 1) s) ≡ ltb (i + 1) (length (view load n s))
    fits-swap fit = ground (
      arith,
      ap neg_part (both-IsSame.same_min ∙ below-IsSame.same_min),
      ap pos_part (both-IsSame.same_max ∙ below-IsSame.same_max),
      tos_lem.demand,
      val_lem.demand,
      ap pos_part tos_lem.same_max,
      ap pos_part val_lem.same_max,
      length-view load n s,
      popped-le n s ok fit,
      ap length val_lem.same_local,
      val_lem.same_pops,
    )

    module _ (there : i + 1 < length (view load n s)) where
      abbrev whole : List V
      whole = view load n s

      same_whole : view load n got_tos.1 ≡ whole
      same_whole = tos_lem.same_view ∙ val_lem.same_view

      below-IsPresent : IsPresent load n (i + 1) got_tos.1
      below-IsPresent = record {
        there = rw same_whole there;
        fetched = λ le. omega (
          arith,
          val_lem.present
              (omega (arith, le, ap length tos_lem.same_local, ap length val_lem.same_local)),
          tos_lem.grows,
          tos_lem.same_pops,
          val_lem.same_pops,
          ap length tos_lem.same_local,
          ap length val_lem.same_local,
        );
      }

      below_view : view load n set_below ≡ set_elem whole (i + 1) got_tos.0
      below_view = set_lem load n (i + 1) got_tos.0 got_tos.1 below-IsPresent ∙ rw same_whole

      top-IsPresent : IsPresent load n 0 set_below
      top-IsPresent = record {
        there = rw (below_view, length-set) (omega (arith, there));
        fetched = λ le. omega (
          arith,
          tos_lem.present
              (omega (arith, le, below-IsSame.same_length, ap length tos_lem.same_local)),
          below-IsSame.same_input,
          below-IsSame.same_length,
          below-IsSame.same_pops,
          tos_lem.same_pops,
          ap length tos_lem.same_local,
        );
      }

      tos_value : get_elem? whole 0 ≡ some got_tos.0
      tos_value =
          rw val_lem.same_view at (tos_lem.value (rw val_lem.same_view (omega (arith, there))))

      swapped : swap_words i whole ≡ some (view load n (swap load (i + 1) s))
      unfolding swap
      swapped =
          let one : suc i ≡ i + 1 = omega arith in
          let val_value = ap (get_elem? whole) one ∙ val_lem.value there in
          let final = set_lem load n 0 got_val.0 set_below top-IsPresent in
          swap_words_lem i whole got_tos.0 got_val.0 tos_value val_value
          ∙ ap (λ k. some (set_elem (set_elem whole k got_tos.0) 0 got_val.0)) one
          ∙ ap (λ w. some (set_elem w 0 got_val.0)) (sym below_view)
          ∙ ap some (sym final)

    pub swap_lem :
        fits n s ≡ true
        → swap_words i (view load n s) ≡ (
            if fits n (swap load (i + 1) s) then some (view load n (swap load (i + 1) s)) else none)
    swap_lem fit = elim (Bool-cases (ltb (i + 1) (length (view load n s)))) [
      | inl there ↦ rw (fits-swap fit, there) (swapped (ltb→lt _ _ there))
      | inr missing ↦
          rw (fits-swap fit, missing)
            (swap_words-none i (view load n s) (omega (arith, ltb→le _ _ missing)))
    ]
