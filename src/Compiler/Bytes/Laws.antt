-- ===== src/Compiler/Bytes/Laws.antt =====
-- BYTE and SIGNEXTEND against their definitions as numbers, on either byte order of the host.
use native.Mathlib.Nat.{
  pow-suc, one-le-pow, pow-le-pow_right, suc-mul, add-mul, mul_assoc, mul-le-mul_right,
  mul-add-mod_self_right, mod-eq_of_lt, div-lt_iff_lt-mul, div-add-mod', mod-lt,
}
use evmjit.Prelude.{
  ℕ, zero, suc, ◌+◌, ◌-◌, ◌*◌, ◌/◌, ◌%◌, ◌^◌, ◌≤◌, ◌<◌, ◌≡◌, ◌∙◌, Bool, true, false, refl, sym, ap,
  arith, ltb, leb, ◌==◌, ◌&&◌, bit_and, bit_or, bit_xor, if◌then◌else◌, Bool-cases, inl, inr,
  ==_iff,
}
use evmjit.Prelude.Bits.{bit_and_ones, bit_or_high, bit_or_ones}
use evmjit.Prelude.Powers.{pow_add}
use evmjit.Endianness.{bswap_if_le, extract_element}
use evmjit.Endianness.Laws.{byte_swap-byte}
use evmjit.Compiler.Arithmetic.{minus_one}
use evmjit.Compiler.Bytes.{byte_word, signextend}

-- The byte at an index of a word in big-endian order, as both byte orders of the host read it.
pub extract_element-bswap_if_le :
    (is_le : Bool) (word i : ℕ)
    → i < 32
    → extract_element is_le (bswap_if_le is_le 32 word) i ≡ word / 256 ^ (31 - i) % 256
unfolding extract_element bswap_if_le
extract_element-bswap_if_le true word i h = byte_swap-byte 32 word i h
extract_element-bswap_if_le false word i h = refl

-- BYTE: the byte at the index, counted from the most significant one, or 0 from the index 32 on.
pub byte_word_lem :
    (is_le : Bool) (idx word : ℕ)
    → byte_word is_le idx word ≡ (if ltb idx 32 then word / 256 ^ (31 - idx) % 256 else 0)
unfolding byte_word
byte_word_lem is_le idx word = elim (Bool-cases (ltb idx 32)) [
  | inl valid ↦
      let small : idx % 32 ≡ idx = ground arith in
      rw (valid, small) (extract_element-bswap_if_le is_le word idx (ground arith))
  | inr invalid ↦ rw invalid refl
]

-- The masks of the bit positions 7, 15, up to 255, computed.
masks_below : ℕ → Bool
masks_below zero = true
masks_below (suc n) =
    masks_below n && bit_xor (2 ^ (n * 8 + 7) - 1) minus_one == 2 ^ 256 - 2 ^ (n * 8 + 7)

masks_at :
    (n k : ℕ)
    → k < n
    → masks_below n ≡ true
    → bit_xor (2 ^ (k * 8 + 7) - 1) minus_one ≡ 2 ^ 256 - 2 ^ (k * 8 + 7)
unfolding masks_below
masks_at zero k below h = absurd (omega arith)
masks_at (suc n) k below h = ground (arith, masks_at n k)

masks : masks_below 32 ≡ true
unfolding masks_below
masks = refl

two_pow_pos : (p : ℕ) → 0 < 2 ^ p
two_pow_pos p = omega (arith, one-le-pow p 2)

-- A mask of ones from the bit `p` on, and the ones below.
or_ones_above :
    (p word : ℕ)
    → p ≤ 256
    → word < 2 ^ 256
    → bit_or word (2 ^ 256 - 2 ^ p) ≡ 2 ^ 256 - 2 ^ p + word % 2 ^ p
or_ones_above p word fits small =
    let j : ℕ = 256 - p in
    let all : 2 ^ 256 ≡ 2 ^ j * 2 ^ p =
      let e : 256 ≡ j + p = omega arith in ap (λ k. 2 ^ k) e ∙ pow_add 2 j p in
    let ones : (2 ^ j - 1) * 2 ^ p ≡ 2 ^ 256 - 2 ^ p =
      let top : 2 ^ j ≡ suc (2 ^ j - 1) = omega (arith, one-le-pow j 2) in
      omega (arith, all, ap (λ t. t * 2 ^ p) top, suc-mul (2 ^ j - 1) (2 ^ p)) in
    let parts : word / 2 ^ p * 2 ^ p + word % 2 ^ p ≡ word = div-add-mod' word (2 ^ p) in
    let high : word / 2 ^ p < 2 ^ j =
      (div-lt_iff_lt-mul (two_pow_pos p)).1 (omega (arith, all, small)) in
    ap (λ t. bit_or t (2 ^ 256 - 2 ^ p)) (sym parts)
    ∙ ap (λ t. bit_or (word / 2 ^ p * 2 ^ p + word % 2 ^ p) t) (sym ones)
    ∙ bit_or_high p (word / 2 ^ p) (word % 2 ^ p) (2 ^ j - 1) (mod-lt word (two_pow_pos p))
    ∙ ap (λ t. t * 2 ^ p + word % 2 ^ p) (bit_or_ones j (word / 2 ^ p) high)
    ∙ ap (λ t. t + word % 2 ^ p) ones

-- The low bits, one more.
mod_double : (p word : ℕ) → word % 2 ^ suc p ≡ word / 2 ^ p % 2 * 2 ^ p + word % 2 ^ p
mod_double p word =
    let q : ℕ = word / 2 ^ p in
    let low : ℕ = q % 2 * 2 ^ p + word % 2 ^ p in
    let halves : q * 2 ^ p ≡ (q / 2 * 2) * 2 ^ p + q % 2 * 2 ^ p =
      ap (λ t. t * 2 ^ p) (sym (div-add-mod' q 2)) ∙ add-mul (q / 2 * 2) (q % 2) (2 ^ p) in
    let double : (q / 2 * 2) * 2 ^ p ≡ q / 2 * 2 ^ suc p =
      mul_assoc (q / 2) 2 (2 ^ p) ∙ ap (λ t. q / 2 * t) (omega (arith, pow-suc 2 p)) in
    let whole : word ≡ q / 2 * 2 ^ suc p + low =
      omega (arith, halves, double, div-add-mod' word (2 ^ p)) in
    let bit : q % 2 * 2 ^ p ≤ 1 * 2 ^ p = mul-le-mul_right (2 ^ p) (omega arith) in
    let small : low < 2 ^ suc p = omega (arith, bit, mod-lt word (two_pow_pos p), pow-suc 2 p) in
    ap (λ t. t % 2 ^ suc p) whole
    ∙ mul-add-mod_self_right (q / 2) (2 ^ suc p) low
    ∙ mod-eq_of_lt small

-- The number that the low `n` bits of a word are, extended to 256 bits with their sign bit.
abbrev pub sign_extended : ℕ → ℕ → ℕ
sign_extended n word =
    let low = word % 2 ^ n in if ltb low (2 ^ (n - 1)) then low else low + (2 ^ 256 - 2 ^ n)

-- The two masks, at the bit position `p`.
sign_step :
    (p word : ℕ)
    → p < 256
    → word < 2 ^ 256
    → (if word / 2 ^ p % 2 == 1 then bit_or word (2 ^ 256 - 2 ^ p) else bit_and word (2 ^ p - 1))
      ≡ sign_extended (suc p) word
sign_step p word fits small =
    let low = mod_double p word in
    let same : suc p - 1 ≡ p = omega arith in
    let rest = mod-lt word (two_pow_pos p) in
    let top = pow-le-pow_right {n = 2} (omega arith) {i = p} {j = 255} (omega arith) in
    elim (Bool-cases (word / 2 ^ p % 2 == 1)) [
      | inl set ↦
          let one = (==_iff (word / 2 ^ p % 2) 1).0 set in
          let low' : word % 2 ^ suc p ≡ 2 ^ p + word % 2 ^ p =
            omega (arith, low, ap (λ t. t * 2 ^ p) one) in
          rw (set, low', same)
            (ground (arith, or_ones_above p word (omega arith) small, pow-suc 2 p, top))
      | inr clear ↦
          let zero : word / 2 ^ p % 2 ≡ 0 = ground arith in
          let low' : word % 2 ^ suc p ≡ word % 2 ^ p =
            omega (arith, low, ap (λ t. t * 2 ^ p) zero) in
          rw (clear, low', same, bit_and_ones p word) (ground (arith, rest))
    ]

-- SIGNEXTEND: the word whose low bytes, the index and one more, are extended; an index above 30
-- leaves it as it is.
pub signextend_lem :
    (idx word : ℕ)
    → word < 2 ^ 256
    → signextend idx word ≡ (if leb idx 30 then sign_extended (8 * (idx + 1)) word else word)
unfolding signextend
signextend_lem idx word fits = elim (Bool-cases (leb idx 30)) [
  | inl in_range ↦
      let k : idx % 2 ^ 5 ≡ idx = ground arith in
      let p : ℕ = idx * 8 + 7 in
      let bits : 8 * (idx + 1) ≡ suc p = omega arith in
      let bound : 2 ^ p < 2 ^ 256 =
        omega (arith, pow-le-pow_right {n = 2} (omega arith) {i = p} {j = 255} (omega arith)) in
      let mask : (2 ^ p % 2 ^ 256 + 2 ^ 256 - 1) % 2 ^ 256 ≡ 2 ^ p - 1 =
        omega (arith, bound, one-le-pow p 2) in
      let negmask = masks_at 32 idx (ground arith) masks in
      rw (in_range, k, mask, negmask, bits) (sign_step p word (omega arith) fits)
  | inr outside ↦ rw outside refl
]
