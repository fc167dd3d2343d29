-- ===== src/Gas/Checks.antt =====
-- Lists of gas checks, as the meter emits them, and what they take from the gas.
use evmjit.Prelude.{
  ℕ, ◌+◌, ◌-◌, ◌^◌, ◌<◌, ◌≡◌, refl, ap, List, [], ◌∷◌, ◌++◌, All, none, some, length, set, arith,
}
use evmjit.Gas.Check.{spend, gas_check-spend}
use evmjit.Gas.Meter.{Check, static, dynamic, erase_at, run_checks}

-- A check with a cost, of 63 bits.
abbrev pub IsDefined : Check → Type 0
IsDefined (static none) = ⊥
IsDefined (static (some cost)) = cost < 2 ^ 63
IsDefined (dynamic cost) = cost < 2 ^ 63

abbrev pub cost_of : Check → ℕ
cost_of (static none) = 0
cost_of (static (some cost)) = cost
cost_of (dynamic cost) = cost

abbrev pub total : List Check → ℕ
total [] = 0
total (c ∷ code) = cost_of c + total code

pub total-append : (xs ys : List Check) → total (xs ++ ys) ≡ total xs + total ys
total-append [] ys = omega arith
total-append (x ∷ xs) ys = omega (arith, total-append xs ys)

pub All-append :
    (xs ys : List Check) → All IsDefined xs → All IsDefined ys → All IsDefined (xs ++ ys)
All-append [] ys h k = k
All-append (x ∷ xs) ys h k = (h.0, All-append xs ys h.1 k)

pub set-middle :
    (xs ys : List Check) (x y : Check) → set (xs ++ x ∷ ys) (length xs) y ≡ xs ++ y ∷ ys
set-middle [] ys x y = refl
set-middle (z ∷ xs) ys x y = ap (λ r. z ∷ r) (set-middle xs ys x y)

pub erase_at-middle :
    (xs ys : List Check) (x : Check) → erase_at (xs ++ x ∷ ys) (length xs) ≡ xs ++ ys
erase_at-middle [] ys x = refl
erase_at-middle (z ∷ xs) ys x = ap (λ r. z ∷ r) (erase_at-middle xs ys x)

-- Running defined checks takes their total, or fails where there is less.
pub run_checks-spend :
    (code : List Check) (gas : ℕ)
    → gas < 2 ^ 63
    → All IsDefined code
    → run_checks gas code ≡ spend gas (total code)
unfolding run_checks
run_checks-spend [] gas h d = ground arith
run_checks-spend (static none ∷ code) gas h d = absurd d.0
run_checks-spend (static (some cost) ∷ code) gas h d =
    ground
      (arith, gas_check-spend gas cost h d.0, run_checks-spend code (gas - cost) (omega arith) d.1)
run_checks-spend (dynamic cost ∷ code) gas h d =
    ground
      (arith, gas_check-spend gas cost h d.0, run_checks-spend code (gas - cost) (omega arith) d.1)
