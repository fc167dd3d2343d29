-- ===== src/Arith256/Division/Laws.antt =====
-- What the division computes.
use native.Mathlib.Nat.{
  pow-le-pow_right, add-mod_right, mod-eq_of_lt, mul-le-mul_left, mul-le-mul_right, mul_assoc,
  pow-suc, add-mul-div_right, div-eq_of_lt, add-mul-mod_self_right,
}
use evmjit.Prelude.{
  ℕ, zero, suc, ◌+◌, ◌-◌, ◌*◌, ◌/◌, ◌%◌, ◌^◌, ◌≤◌, ◌<◌, ◌≡◌, inl, inr, refl, sym, ap, ◌∙◌, leb,
  Bool-cases, leb→le, leb→lt, bit_or, arith,
}
use evmjit.Prelude.Bits.{bit_or_shifted, double_pow}
use evmjit.Prelude.Powers.{pow_add, lt-two_pow}
use evmjit.Arith256.Division.{next_r, next_q, udivrem_loop, udivrem}

-- What LLVM says of `ctlz` on numbers of `width` bits other than 0.
abbrev pub CountsZeros : ℕ → (ℕ → ℕ) → Type 0
CountsZeros width ctlz =
    (x : ℕ)
    → 0 < x
    → x < 2 ^ width
    → (ctlz x < width) × (2 ^ (width - 1 - ctlz x) ≤ x) × (x < 2 ^ (width - ctlz x))

-- A subtraction that does not wrap.
pub wrapped_sub : (w r y : ℕ) → y ≤ r → r < w → (r + w - y) % w ≡ r - y
wrapped_sub w r y le lt =
    let moved : r + w - y ≡ r - y + w = omega arith in
    ap (λ n. n % w) moved ∙ add-mod_right (r - y) w ∙ mod-eq_of_lt (omega arith)

le_shift : (a i : ℕ) → a ≤ a * 2 ^ i
le_shift a i = omega (
  arith,
  mul-le-mul_left a (pow-le-pow_right {n = 2} (omega arith) {i = 0} {j = i} (omega arith)),
)

double_shift : (m i : ℕ) → 2 ^ suc (m + i) ≡ 2 ^ m * 2 ^ i * 2
double_shift m i = pow-suc 2 (m + i) ∙ ap (λ p. p * 2) (pow_add 2 m i)

-- One round: what is taken from the remainder is added to the quotient.
next_lem :
    (width y r q : ℕ)
    → r < 2 ^ width
    → r < y * 2
    → q % 2 ≡ 0
    → (next_q width y r q ≤ q + 1)
      × (next_q width y r q * y + next_r width y r ≡ q * y + r)
      × (next_r width y r < y)
      × (next_r width y r ≤ r)
next_lem width y r q hw hr even = elim (Bool-cases (leb y r)) [
  | inl ge ↦
      let double : q / 2 * 2 ^ 1 ≡ q = omega (arith, even) in
      let odd : bit_or q 1 ≡ q + 1 = rw double at (bit_or_shifted 1 (q / 2) 1 (omega arith)) in
      rw (ge, odd, wrapped_sub (2 ^ width) r y (leb→le y r ge) hw)
        (omega arith, grind (arith, leb→le y r ge), omega (arith, leb→le y r ge, hr), omega arith)
  | inr lt ↦ rw lt (omega arith, refl, leb→lt y r lt, omega arith)
]

module _ (width y : ℕ) where
  -- The loop from `i` on, for a remainder below the double of the shifted divisor and a quotient
  -- with room for the bits to come.
  udivrem_loop_lem :
      (i r q : ℕ)
      → r < y * 2 ^ i * 2
      → r < 2 ^ width
      → q % 2 ≡ 0
      → (q + 2) * 2 ^ i ≤ 2 ^ width
      → ((udivrem_loop width i (y * 2 ^ i) r q).0 * y + (udivrem_loop width i (y * 2 ^ i) r q).1
          ≡ q * (y * 2 ^ i) + r)
        × ((udivrem_loop width i (y * 2 ^ i) r q).1 < y)
  unfolding udivrem_loop
  udivrem_loop_lem zero r q hr hw even room =
      let one : y * 2 ^ 0 ≡ y = omega arith in
      let (low, sum, below, smaller) = next_lem width y r q hw (omega (arith, hr)) even in
      rw one (sum, below)
  udivrem_loop_lem (suc i) r q hr hw even room =
      let shifted : ℕ = y * 2 ^ suc i in
      let half : shifted ≡ 2 * (y * 2 ^ i) = double_pow y i in
      let halved : shifted / 2 ≡ y * 2 ^ i = omega (arith, half) in
      let q1 : ℕ = next_q width shifted r q in
      let r1 : ℕ = next_r width shifted r in
      let (low, sum, below, smaller) = next_lem width shifted r q hw hr even in
      let room' : (q1 * 2 + 2) * 2 ^ i ≤ 2 ^ width = omega (
        arith,
        mul-le-mul_right {m = q1 * 2 + 2} {n = (q + 2) * 2} (2 ^ i) (omega (arith, low)),
        mul_assoc (q + 2) 2 (2 ^ i),
        double_pow (q + 2) i,
        room,
      ) in
      let exact : q1 * 2 % 2 ^ width ≡ q1 * 2 =
        mod-eq_of_lt (omega (arith, le_shift (q1 * 2 + 2) i, room')) in
      let (sum', below') =
        udivrem_loop_lem i r1 (q1 * 2) (omega (arith, half, below)) (omega (arith, smaller, hw))
          (omega arith) room' in
      let same : q1 * 2 * (y * 2 ^ i) + r1 ≡ q1 * shifted + r1 =
        omega (arith, mul_assoc q1 2 (y * 2 ^ i), ap (λ t. q1 * t) half) in
      rw (udivrem_loop, halved, exact) (sum' ∙ same ∙ sum, below')

-- Quotient and remainder are unique.
pub quotient_unique : (x y q r : ℕ) → q * y + r ≡ x → r < y → (q ≡ x / y) × (r ≡ x % y)
quotient_unique x y q r e h =
    let swapped : r + q * y ≡ x = omega (arith, e) in
    (
      sym (
          ap (λ t. t / y) (sym swapped)
          ∙ add-mul-div_right r q (omega (arith, h))
          ∙ omega (arith, div-eq_of_lt h)),
      sym (ap (λ t. t % y) (sym swapped) ∙ add-mul-mod_self_right r q y ∙ mod-eq_of_lt h),
    )

module _ (width : ℕ) (ctlz : ℕ → ℕ) (counts : CountsZeros width ctlz) (x y : ℕ) (some_y : 0 < y)
    (x_fits : x < 2 ^ width) where
  -- The first shift brings the divisor to the length of the dividend.
  first_shift :
      y ≤ x
      → (i : ℕ) × ((ctlz y + 2 ^ width - ctlz x) % 2 ^ width ≡ i)
        × (y * 2 ^ i < 2 ^ width)
        × (x < y * 2 ^ i * 2)
        × (2 * 2 ^ i ≤ 2 ^ width)
  first_shift le =
      let (a_lt, y_from, y_to) = counts y some_y (omega (arith, le, x_fits)) in
      let (b_lt, x_from, x_to) = counts x (omega (arith, le, some_y)) x_fits in
      let a : ℕ = ctlz y in
      let b : ℕ = ctlz x in
      let longer : b ≤ a = elim (Bool-cases (leb b a)) [
        | inl ok ↦ leb→le b a ok
        | inr not_ok ↦ absurd (
            omega (
              arith,
              pow-le-pow_right {n = 2} (omega arith) {i = width - b} {j = width - 1 - a}
                  (omega (arith, leb→lt b a not_ok)),
              y_from,
              x_to,
              le,
            ))
      ] in
      let i : ℕ = a - b in
      let to : 2 ^ (width - a) * 2 ^ i ≡ 2 ^ (width - b) =
        sym (pow_add 2 (width - a) i) ∙ ap (λ k. 2 ^ k) (omega (arith, longer, a_lt)) in
      let from : 2 ^ (width - 1 - a) * 2 ^ i * 2 ≡ 2 ^ (width - b) =
        sym (double_shift (width - 1 - a) i) ∙ ap (λ k. 2 ^ k) (omega (arith, longer, a_lt)) in
      (
        i,
        wrapped_sub (2 ^ width) a b longer (omega (arith, lt-two_pow width, a_lt)),
        omega (
          arith,
          mul-le-mul_right {m = suc y} {n = 2 ^ (width - a)} (2 ^ i) y_to,
          to,
          pow-le-pow_right {n = 2} (omega arith) {i = width - b} {j = width} (omega arith),
          le_shift 1 i,
        ),
        omega
            (arith, mul-le-mul_right {m = 2 ^ (width - 1 - a)} {n = y} (2 ^ i) y_from, from, x_to),
        omega (
          arith,
          pow-suc 2 i,
          pow-le-pow_right {n = 2} (omega arith) {i = suc i} {j = width} (omega (arith, a_lt)),
        ),
      )

  -- For a divisor other than 0, and any width: the function computes quotient and remainder.
  pub udivrem_lem : udivrem width ctlz x y ≡ (x / y, x % y)
  unfolding udivrem
  udivrem_lem = elim (Bool-cases (leb y x)) [
    | inl le ↦
        let (i, shift, fits, covers, room) = first_shift (leb→le y x le) in
        let exact : y * 2 ^ i % 2 ^ width ≡ y * 2 ^ i = mod-eq_of_lt fits in
        let (sum, below) = udivrem_loop_lem width y i x 0 covers x_fits refl room in
        let (q_eq, r_eq) = quotient_unique x y _ _ (sum ∙ omega arith) below in
        rw (le, shift, exact, ← q_eq, ← r_eq) refl
    | inr lt ↦ let small = leb→lt y x lt in rw (lt, div-eq_of_lt small, mod-eq_of_lt small) refl
  ]
