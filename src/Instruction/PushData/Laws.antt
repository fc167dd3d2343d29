-- ===== src/Instruction/PushData/Laws.antt =====
-- What `readPushData` and `skipPushData` compute.
use native.Mathlib.Nat.{pow-le-pow_right, pow-suc}
use evmjit.Prelude.{
  ℕ, zero, suc, ◌+◌, ◌-◌, ◌*◌, ◌%◌, ◌^◌, ◌≤◌, ◌<◌, min, ◌≡◌, inl, inr, List, [], ◌∷◌, All, ltb,
  ◌==◌, tests, Bool-cases, if◌then◌else◌, bit_or, arith, refl,
}
use evmjit.Prelude.{eqb_refl, lt→eqb}
use evmjit.Prelude.Bits.{bit_or_shifted}
use evmjit.Instruction.{byte_at}
use evmjit.Instruction.PushData.{
  num_bytes, read_loop, read_push_data, skip_loop, skip_push_data, byte_or_zero, big_endian,
}

abbrev pub AreBytes : List ℕ → Type 0
AreBytes = All (λ b. b < 256)

pub byte_at-lt : (code : List ℕ) (i : ℕ) → AreBytes code → byte_at code i < 256
byte_at-lt [] i h = omega arith
byte_at-lt (b ∷ code) zero h = h.0
byte_at-lt (b ∷ code) (suc i) h = byte_at-lt code i h.1

module _ (code : List ℕ) (end start : ℕ) (bytes : AreBytes code) where
  byte_or_zero-lt : (i : ℕ) → byte_or_zero code end i < 256
  byte_or_zero-lt i = ground (arith, byte_at-lt code i bytes)

  pub big_endian-lt : (n : ℕ) → big_endian code end start n < 256 ^ n
  unfolding big_endian
  big_endian-lt zero = omega arith
  big_endian-lt (suc n) = omega (arith, pow-suc 256 n, big_endian-lt n, byte_or_zero-lt (start + n))

  -- One round keeps the value exact while fewer than 32 bytes are read.
  shift_in :
      (k : ℕ)
      → k < 32
      → bit_or (big_endian code end start k * 2 ^ 8 % 2 ^ 256) (byte_or_zero code end (start + k))
        ≡ big_endian code end start (suc k)
  unfolding big_endian
  shift_in k h =
      let v : ℕ = big_endian code end start k in
      let b : ℕ = byte_or_zero code end (start + k) in
      let small : v * 2 ^ 8 < 2 ^ 256 = omega (
        arith,
        big_endian-lt k,
        pow-le-pow_right {n = 256} (omega arith) {i = k} {j = 31} (omega arith),
      ) in
      let exact : v * 2 ^ 8 % 2 ^ 256 ≡ v * 2 ^ 8 = omega (arith, small) in
      rw exact (bit_or_shifted 8 v b (byte_or_zero-lt (start + k)))

  -- The byte of a round, and the iterator after it.
  fetch :
      (k c : ℕ)
      → c ≡ min (start + k) end
      → ((if c == end then 0 else byte_at code c) ≡ byte_or_zero code end (start + k))
        × ((if c == end then c else c + 1) ≡ min (start + suc k) end)
  fetch k c at = elim (Bool-cases (ltb (start + k) end)) [
    | inl inside ↦
        let here : c ≡ start + k = omega (tests, at) in
        rw (here, lt→eqb (start + k) end (omega tests), inside) (refl, omega tests)
    | inr outside ↦
        let here : c ≡ end = omega (tests, at) in
        rw (here, eqb_refl end, outside) (refl, omega tests)
  ]

  read_loop_lem :
      (n k c : ℕ)
      → k + n ≤ 32
      → c ≡ min (start + k) end
      → read_loop n code end c (big_endian code end start k)
        ≡ (big_endian code end start (k + n), min (start + (k + n)) end)
  unfolding read_loop
  read_loop_lem zero k c fits at = let e : k + 0 ≡ k = omega arith in rw (e, at)
  read_loop_lem (suc n) k c fits at =
      let e : k + suc n ≡ suc k + n = omega arith in
      let (b_eq, c_eq) = fetch k c at in
      rw (e, b_eq, c_eq, shift_in k (omega arith)) (read_loop_lem n (suc k) _ (omega arith) refl)

skip_loop_lem : (n end c : ℕ) → c ≤ end → skip_loop n end c ≡ min (c + n) end
unfolding skip_loop
skip_loop_lem zero end c h = omega arith
skip_loop_lem (suc n) end c h = elim (Bool-cases (ltb c end)) [
  | inl more ↦ rw more (omega (tests, skip_loop_lem n end (c + 1) (omega tests)))
  | inr done ↦ rw done (omega tests)
]

module _ (code : List ℕ) (curr end : ℕ) (bytes : AreBytes code)
    (push_inst : (0x60 ≤ byte_at code curr) × (byte_at code curr ≤ 0x7f))
    (inside : curr < end) where
  -- `readPushData` at a PUSH1 to PUSH32 inside the code: the value is the number that the
  -- instruction's data bytes write in base 256, most significant byte first, a byte behind the end
  -- counting as 0, with no bit lost to the width of 256; and the iterator is left on the last data
  -- byte, or on the last byte of the code if that comes first.
  pub read_push_data-big_endian : read_push_data code curr end ≡ (
    big_endian code end (curr + 1) (num_bytes (byte_at code curr)),
    min (curr + num_bytes (byte_at code curr)) (end - 1),
  )
  unfolding read_push_data big_endian
  read_push_data-big_endian =
      let n : ℕ = num_bytes (byte_at code curr) in
      let all =
        read_loop_lem code end (curr + 1) bytes n 0 (curr + 1) (omega arith) (omega arith) in
      let none_read : 0 + n ≡ n = omega arith in
      let last : min (curr + 1 + n) end - 1 ≡ min (curr + n) (end - 1) = omega arith in
      rw (all, none_read, last)

  -- `skipPushData` leaves the iterator where `readPushData` does.
  pub skip_push_data-read_push_data :
      skip_push_data code curr end ≡ (read_push_data code curr end).1
  unfolding skip_push_data
  skip_push_data-read_push_data =
      rw read_push_data-big_endian
        (skip_loop_lem (num_bytes (byte_at code curr)) (end - 1) curr (omega arith))
