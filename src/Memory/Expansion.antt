-- ===== src/Memory/Expansion.antt =====
-- `mem.require` against the rule for the expansion of memory, for every offset and size.
use mathlib.Core.Option
use evmjit.Prelude.{
  ℕ, ◌+◌, ◌-◌, ◌*◌, ◌/◌, ◌%◌, ◌^◌, ◌≤◌, ◌<◌, ◌≡◌, ◌⊎◌, sym, ap, ◌∙◌, inl, inr, min, max, Option,
  none, some, leb, ◌==◌, ◌&&◌, bit_and, Bool-cases, arith, leb→le, leb→lt, if◌then◌else◌,
}
use evmjit.Prelude.Bits.{bit_and_shifted, bit_and_ones}
use evmjit.Gas.Check.{gas_check, spend, gas_check-spend}
use evmjit.Memory.Require.{input_max, clamp_input, size_required, price, mem_require}

-- The size in bytes, a number of whole words, that holds an area and what was held before.
abbrev pub expanded : ℕ → ℕ → ℕ → ℕ
expanded size_cur offset size = max size_cur (32 * ((offset + size + 31) / 32))

-- The rule: an empty area costs nothing; any other costs the difference of the prices, `3 w` and a
-- 512th of `w` squared for `w` words.
unfoldable pub expand : ℕ → ℕ → ℕ → ℕ → Option (ℕ × ℕ)
expand gas size_cur offset size =
    let new_size = expanded size_cur offset size in
    if size == 0
    then some (gas, size_cur)
    else Option.map (λ g. (g, new_size)) (spend gas (price new_size - price size_cur))

-- The mask rounds down to whole words.
mask_words : (x : ℕ) → x < 2 ^ 64 → bit_and x ((2 ^ 64 - 1) * 2 ^ 5 % 2 ^ 64) ≡ 32 * (x / 32)
mask_words x h =
    let parts : x ≡ x / 32 * 2 ^ 5 + x % 32 = omega arith in
    let masked = bit_and_shifted 5 (x / 32) (x % 32) (2 ^ 59 - 1) (omega arith) in
    ap (λ t. bit_and t ((2 ^ 64 - 1) * 2 ^ 5 % 2 ^ 64)) parts
    ∙ masked
    ∙ omega (arith, bit_and_ones 59 (x / 32))

square_mono : (a b : ℕ) → a ≤ b → a * a ≤ b * b
square_mono a b h = grind arith

price_mono : (a b : ℕ) → a ≤ b → price a ≤ price b
price_mono a b h = omega (arith, square_mono (a / 32) (b / 32) (omega arith))

-- Memory that costs less than 2 ^ 47 is smaller than 2 ^ 33 bytes.
pub size_bound : (size : ℕ) → price size < 2 ^ 47 → size < 2 ^ 33
size_bound size h = elim (Bool-cases (leb (2 ^ 33) size)) [
  | inl big ↦ absurd (
      omega (
        arith,
        h,
        square_mono (2 ^ 28) (size / 32) (omega (arith, leb→le (2 ^ 33) size big)),
        leb→le (2 ^ 33) size big,
      ))
  | inr small ↦ leb→lt (2 ^ 33) size small
]

size_required_lem :
    (offset size : ℕ)
    → size_required offset size ≡ 32 * ((min offset (2 ^ 33) + min size (2 ^ 33) + 31) / 32)
size_required_lem offset size =
    mask_words (clamp_input offset + clamp_input size + 31) (ground arith)
    ∙ ap (λ k. 32 * (k / 32)) (ground arith)

price_bound : (bytes : ℕ) → bytes ≤ 2 ^ 35 → price bytes < 2 ^ 62
price_bound bytes h = omega (arith, square_mono (bytes / 32) (2 ^ 30) (omega arith))

module _ (gas size_cur offset size : ℕ) (whole : size_cur % 32 ≡ 0)
    (affordable : gas + price size_cur < 2 ^ 47) where
  abbrev after : ℕ
  after = expanded size_cur offset size

  small : size_cur < 2 ^ 33
  small = size_bound size_cur (omega (arith, affordable))

  -- An offset or a size above the maximum cannot be paid for.
  too_much : 2 ^ 33 < max offset size → 0 < size → gas < price after - price size_cur
  too_much big some_size =
      let words : 2 ^ 28 ≤ after / 32 = omega (arith, big, some_size) in
      omega (arith, affordable, square_mono (2 ^ 28) (after / 32) words, words)

  -- With both below the maximum nothing is lost to the clamp.
  exact :
      offset ≤ 2 ^ 33 → size ≤ 2 ^ 33 → size_required offset size ≡ 32 * ((offset + size + 31) / 32)
  exact ho hs = size_required_lem offset size ∙ omega arith

  -- Where the memory suffices.
  enough :
      size_required offset size ≤ size_cur
      → 0 < size
      → (offset ≤ 2 ^ 33) × (size ≤ 2 ^ 33) × (after ≡ size_cur)
  enough h some_size =
      let clamped = size_required_lem offset size in
      let ho : offset ≤ 2 ^ 33 = omega (arith, clamped, h, small, some_size) in
      let hs : size ≤ 2 ^ 33 = omega (arith, clamped, h, small) in
      (ho, hs, omega (arith, exact ho hs, h))

  -- The cost that `mem.require` hands to `gas.check`.
  abbrev asked : ℕ
  asked =
      if leb offset input_max && leb size input_max
      then price (size_required offset size) - price size_cur
      else 2 ^ 63 - 1

  grow :
      0 < size
      → size_cur < size_required offset size
      → Option.map {B = ℕ × ℕ} (λ g. (g, size_required offset size)) (gas_check gas asked)
        ≡ Option.map {B = ℕ × ℕ} (λ g. (g, after)) (spend gas (price after - price size_cur))
  grow some_size short = elim (Bool-cases (leb offset input_max && leb size input_max)) [
    | inl ok ↦
        let ho : offset ≤ 2 ^ 33 = ground arith in
        let hs : size ≤ 2 ^ 33 = ground arith in
        let same : size_required offset size ≡ after = omega (arith, exact ho hs, short) in
        let cost : ℕ = price after - price size_cur in
        let bound = price_bound after (omega (arith, ho, hs, small)) in
        let paid : gas_check gas cost ≡ spend gas cost =
          gas_check-spend gas cost (omega (arith, affordable)) (omega (arith, bound)) in
        rw (ok, same, paid)
    | inr not_ok ↦
        let big : 2 ^ 33 < max offset size = ground arith in
        let dear = too_much big some_size in
        let broke : gas_check gas (2 ^ 63 - 1) ≡ none =
          gas_check-spend gas (2 ^ 63 - 1) (omega (arith, affordable)) (omega arith)
          ∙ ground (arith, affordable) in
        let beyond : spend gas (price after - price size_cur) ≡ none = ground (arith, dear) in
        rw (not_ok, broke, beyond)
  ]

  -- `mem.require` does what the rule asks for, for every offset and size of 256 bits and beyond: it
  -- grows the memory to the whole words that hold the area and takes the difference of the prices, or
  -- runs out of gas where there is less. The memory has a size in whole words, and the gas together
  -- with what the memory has cost is less than 2 ^ 47.
  pub mem_require-expand : mem_require gas size_cur offset size ≡ expand gas size_cur offset size
  unfolding mem_require expand
  mem_require-expand = elim (Bool-cases (size == 0)) [
    | inl nothing ↦ rw nothing
    | inr something ↦ elim (Bool-cases (leb (size_required offset size) size_cur)) [
      | inl suffices ↦
          let (_, _, same) = enough (leb→le _ _ suffices) (ground arith) in
          rw (something, suffices, same) (ground arith)
      | inr short ↦ rw (something, short) (grow (ground arith) (ground arith))
    ]
  ]

-- What a payment for an area leaves.
pub expand_lem :
    (gas size_cur offset size g n : ℕ)
    → expand gas size_cur offset size ≡ some (g, n)
    → (size_cur ≤ n) × ((size ≡ 0) ⊎ (offset + size ≤ n)) × (price n ≤ gas + price size_cur)
unfolding expand
expand_lem gas size_cur offset size g n e = ground arith

-- An area that `mem.require` accepts lies in the memory, below 2 ^ 33 bytes, unless it is empty.
pub mem_require-accepted :
    (gas size_cur offset size g n : ℕ)
    → size_cur % 32 ≡ 0
    → gas + price size_cur < 2 ^ 47
    → mem_require gas size_cur offset size ≡ some (g, n)
    → (size ≡ 0) ⊎ ((offset + size ≤ n) × (n < 2 ^ 33))
mem_require-accepted gas size_cur offset size g n whole affordable e =
    let (_, held, paid) =
      expand_lem gas size_cur offset size g n
        (sym (mem_require-expand gas size_cur offset size whole affordable) ∙ e) in
    let small : n < 2 ^ 33 = size_bound n (omega (arith, paid, affordable)) in
    elim held [ inl empty ↦ inl empty | inr inside ↦ inr (inside, small) ]
