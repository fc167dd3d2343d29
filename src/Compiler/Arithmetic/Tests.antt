-- ===== src/Compiler/Arithmetic/Tests.antt =====
-- The arithmetic instructions at concrete words.
use evmjit.Prelude.{◌+◌, ◌*◌, ◌/◌, ◌%◌, ◌^◌, ◌≡◌, true, ◌==◌, arith, if◌then◌else◌}
use evmjit.Arith256.Division.Zeros.{leading_zeros, leading_zeros-CountsZeros}
use evmjit.Arith256.Signed.{word_of, xor}
use evmjit.Compiler.Arithmetic.{div, sdiv_word, umod, smod, addmod, mulmod}
use evmjit.Compiler.Arithmetic.Laws.{division_handlers_lem}

-- The least number and -1, with a modulus of 10.
division_handlers_lem_example :
    let a = word_of true (2 ^ 255) in
    let b = word_of true 1 in
    ((div (leading_zeros 256) a b ≡ (if b == 0 then 0 else a / b))
      × (umod (leading_zeros 256) a b ≡ (if b == 0 then 0 else a % b)))
    × ((sdiv_word (leading_zeros 256) a b
          ≡ (if 1 == 0 then 0 else word_of (xor true true) (2 ^ 255 / 1)))
        × (smod (leading_zeros 256) a b ≡ (if 1 == 0 then 0 else word_of true (2 ^ 255 % 1))))
    × ((addmod (leading_zeros 512) a b 10 ≡ (if 10 == 0 then 0 else (a + b) % 10))
        × (mulmod (leading_zeros 512) a b 10 ≡ (if 10 == 0 then 0 else a * b % 10)))
division_handlers_lem_example =
    division_handlers_lem (leading_zeros 256) (leading_zeros 512) (leading_zeros-CountsZeros 256)
      (leading_zeros-CountsZeros 512) true true (2 ^ 255) 1 10 (omega arith) (omega arith)
      (omega arith)
