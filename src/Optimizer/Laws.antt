-- ===== src/Optimizer/Laws.antt =====
-- The pass against what the block computes.
use mathlib.Core.List.{map}
use evmjit.Prelude.{
  ℕ, ◌/◌, ◌%◌, ◌^◌, ◌<◌, ◌≡◌, refl, sym, ap, ◌∙◌, inl, inr, Bool, true, false, List, [], ◌∷◌, ◌==◌,
  Bool-cases, arith,
}
use evmjit.Arith256.Division.Laws.{CountsZeros, udivrem_lem}
use evmjit.Arith256.Signed.{
  udiv, urem, sdiv, srem, word_of, InRange, xor, sdiv_lem, srem_lem, InRange-lt,
}
use evmjit.Optimizer.{
  Opcode, Inst, Func, Lowered, word_func, wide_func, func_of, replaced, run_on_basic_block,
}

-- What the LLVM language reference says of the four instructions, for a divisor other than 0; of the
-- signed division where the quotient can be represented.
pub record Divides (llvm : Inst → ℕ → ℕ → ℕ) : Type 0 where
  pub udiv_law : (w x y : ℕ) → 0 < y → llvm (record { opcode = Opcode.udiv; width = w }) x y ≡ x / y
  pub urem_law : (w x y : ℕ) → 0 < y → llvm (record { opcode = Opcode.urem; width = w }) x y ≡ x % y
  pub sdiv_law :
      (s t : Bool) (m n : ℕ)
      → InRange s m
      → InRange t n
      → 0 < n
      → InRange (xor s t) (m / n)
      → llvm (record { opcode = Opcode.sdiv; width = 256 }) (word_of s m) (word_of t n)
        ≡ word_of (xor s t) (m / n)
  pub srem_law :
      (s t : Bool) (m n : ℕ)
      → InRange s m
      → InRange t n
      → 0 < n
      → InRange (xor s t) (m / n)
      → llvm (record { opcode = Opcode.srem; width = 256 }) (word_of s m) (word_of t n)
        ≡ word_of s (m % n)

module _ (llvm : Inst → ℕ → ℕ → ℕ) (ctlz : ℕ → ℕ → ℕ) where
  -- The functions by their names; the width is that of `ctlz`.
  abbrev pub call : Func → ℕ → ℕ → ℕ
  call Func.udiv256 x y = udiv (ctlz 256) x y
  call Func.urem256 x y = urem (ctlz 256) 256 x y
  call Func.sdiv256 x y = sdiv (ctlz 256) x y
  call Func.srem256 x y = srem (ctlz 256) x y
  call Func.urem512 x y = urem (ctlz 512) 512 x y

  abbrev pub eval : Lowered → ℕ → ℕ → ℕ
  eval (Lowered.kept inst) x y = llvm inst x y
  eval (Lowered.called func) x y = call func x y

word_of_some : (t : Bool) (n : ℕ) → InRange t n → 0 < n → 0 < word_of t n
word_of_some true n h some_n = omega arith
word_of_some false n h some_n = omega arith

module _ (llvm : Inst → ℕ → ℕ → ℕ) (divides : Divides llvm) (ctlz : ℕ → ℕ → ℕ)
    (counts : (w : ℕ) → CountsZeros w (ctlz w)) (s t : Bool) (m n : ℕ) (m_fits : InRange s m)
    (n_fits : InRange t n) (some_n : 0 < n) (fits : InRange (xor s t) (m / n)) where
  word_of-lt : word_of s m < 2 ^ 256
  word_of-lt = ground (arith, InRange-lt s m m_fits)

  word_of-some : 0 < word_of t n
  word_of-some = word_of_some t n n_fits some_n

  word_lem :
      (opcode : Opcode)
      → eval llvm ctlz
          (replaced (record { opcode = opcode; width = 256 }) (word_func opcode))
          (word_of s m)
          (word_of t n)
        ≡ llvm (record { opcode = opcode; width = 256 }) (word_of s m) (word_of t n)
  unfolding udiv urem
  word_lem Opcode.udiv =
      ap (λ (r : ℕ × ℕ). r.0)
        (udivrem_lem 256 (ctlz 256) (counts 256) (word_of s m) (word_of t n) word_of-some
          word_of-lt)
      ∙ sym (divides.udiv_law 256 (word_of s m) (word_of t n) word_of-some)
  word_lem Opcode.urem =
      ap (λ (r : ℕ × ℕ). r.1)
        (udivrem_lem 256 (ctlz 256) (counts 256) (word_of s m) (word_of t n) word_of-some
          word_of-lt)
      ∙ sym (divides.urem_law 256 (word_of s m) (word_of t n) word_of-some)
  word_lem Opcode.sdiv =
      sdiv_lem (ctlz 256) (counts 256) s t m n m_fits n_fits some_n
      ∙ sym (divides.sdiv_law s t m n m_fits n_fits some_n fits)
  word_lem Opcode.srem =
      srem_lem (ctlz 256) (counts 256) s t m n m_fits n_fits some_n
      ∙ sym (divides.srem_law s t m n m_fits n_fits some_n fits)
  word_lem (Opcode.other k) = refl

  wide_lem :
      (opcode : Opcode)
      → eval llvm ctlz
          (replaced (record { opcode = opcode; width = 512 }) (wide_func opcode))
          (word_of s m)
          (word_of t n)
        ≡ llvm (record { opcode = opcode; width = 512 }) (word_of s m) (word_of t n)
  unfolding urem
  wide_lem Opcode.urem =
      ap (λ (r : ℕ × ℕ). r.1)
        (udivrem_lem 512 (ctlz 512) (counts 512) (word_of s m) (word_of t n) word_of-some
          (omega (arith, word_of-lt)))
      ∙ sym (divides.urem_law 512 (word_of s m) (word_of t n) word_of-some)
  wide_lem Opcode.udiv = refl
  wide_lem Opcode.sdiv = refl
  wide_lem Opcode.srem = refl
  wide_lem (Opcode.other k) = refl

  inst_lem :
      (opcode : Opcode) (width : ℕ)
      → eval llvm ctlz
          (replaced
            (record { opcode = opcode; width = width })
            (func_of (record { opcode = opcode; width = width })))
          (word_of s m)
          (word_of t n)
        ≡ llvm (record { opcode = opcode; width = width }) (word_of s m) (word_of t n)
  inst_lem opcode width = elim (Bool-cases (width == 256)) [
    | inl word ↦ let e : width ≡ 256 = ground arith in rw e (word_lem opcode)
    | inr not_word ↦ elim (Bool-cases (width == 512)) [
      | inl wide ↦ let e : width ≡ 512 = ground arith in rw e (wide_lem opcode)
      | inr no_wide ↦ rw (not_word, no_wide)
    ]
  ]

  -- For a divisor other than 0 and a quotient that a signed word holds, each instruction of the block
  -- that the pass leaves behind, of whatever type, computes on two words what the instruction at its
  -- place computed. LLVM's divisions are those of the language reference.
  pub run_on_basic_block-llvm :
      (bb : List Inst)
      → map
          (λ lowered. eval llvm ctlz lowered (word_of s m) (word_of t n))
          (run_on_basic_block bb).0
        ≡ map (λ inst. llvm inst (word_of s m) (word_of t n)) bb
  unfolding run_on_basic_block
  run_on_basic_block-llvm [] = refl
  run_on_basic_block-llvm (inst ∷ bb) =
      rw (inst_lem inst.opcode inst.width, run_on_basic_block-llvm bb) refl
