-- ===== src/Instruction/Tests.antt =====
-- Bytes decoded and data of PUSH read, at concrete codes.
use evmjit.Prelude.{ℕ, ◌+◌, ◌-◌, ◌≡◌, refl, List, [], ◌∷◌, arith, min}
use evmjit.Instruction.{Instruction, decode, byte_at}
use evmjit.Instruction.PushData.{num_bytes, read_push_data, big_endian}
use evmjit.Instruction.PushData.Laws.{AreBytes, read_push_data-big_endian}

-- PUSH3 with two bytes of data before the end.
abbrev cut_push : List ℕ
cut_push = 0x01 ∷ 0x62 ∷ 0xab ∷ 0xcd ∷ []

cut_push-AreBytes : AreBytes cut_push
cut_push-AreBytes = (omega arith, (omega arith, (omega arith, (omega arith, tt))))

decoded : decode 0x62 ≡ Instruction.push 3
unfolding decode
decoded = refl

read_result : read_push_data cut_push 1 4 ≡ (0xabcd00, 3)
unfolding read_push_data
read_result = refl

read_push_data-big_endian_example : read_push_data cut_push 1 4 ≡ (
  big_endian cut_push 4 (1 + 1) (num_bytes (byte_at cut_push 1)),
  min (1 + num_bytes (byte_at cut_push 1)) (4 - 1),
)
read_push_data-big_endian_example =
    read_push_data-big_endian cut_push 1 4 cut_push-AreBytes (omega arith, omega arith)
      (omega arith)
