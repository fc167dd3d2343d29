-- ===== src/Arith256/Tests.antt =====
-- Divisions and powers at concrete words, with a `ctlz` that counts leading zeros.
use evmjit.Prelude.{◌+◌, ◌/◌, ◌%◌, ◌^◌, ◌≡◌, refl, some, arith}
use evmjit.Arith256.Division.{udivrem}
use evmjit.Arith256.Division.Laws.{udivrem_lem}
use evmjit.Arith256.Division.Zeros.{leading_zeros, leading_zeros-CountsZeros}
use evmjit.Arith256.Power.{exp, exp_lem}

udivrem_result : udivrem 256 (leading_zeros 256) (2 ^ 200 + 17) 1000 ≡ ((2 ^ 200 + 17) / 1000, 393)
unfolding udivrem leading_zeros
udivrem_result = refl

udivrem_lem_example :
    udivrem 256 (leading_zeros 256) (2 ^ 200) 1000 ≡ (2 ^ 200 / 1000, 2 ^ 200 % 1000)
udivrem_lem_example =
    udivrem_lem 256 (leading_zeros 256) (leading_zeros-CountsZeros 256) (2 ^ 200) 1000 (omega arith)
      (omega arith)

exp_lem_example : exp 3 1000 ≡ some (3 ^ 1000 % 2 ^ 256)
exp_lem_example = exp_lem 3 1000 (omega arith)
