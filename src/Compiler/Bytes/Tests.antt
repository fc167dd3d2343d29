-- ===== src/Compiler/Bytes/Tests.antt =====
-- Tests and examples for BYTE and SIGNEXTEND.
use evmjit.Prelude.{◌-◌, ◌^◌, ◌≡◌, true, false, refl, arith}
use evmjit.Compiler.Bytes.{byte_word, signextend}
use evmjit.Compiler.Bytes.Laws.{byte_word_lem, signextend_lem}

last_byte : byte_word true 31 0x1234 ≡ 0x34
unfolding byte_word
last_byte = refl

byte_word_lem_example : byte_word false 30 0x1234 ≡ 0x12
byte_word_lem_example = byte_word_lem false 30 0x1234

signextend_lem_example : signextend 0 0x1280 ≡ 2 ^ 256 - 128
signextend_lem_example = signextend_lem 0 0x1280 (omega arith)
