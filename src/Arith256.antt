-- ===== src/Arith256.antt =====
-- `class Arith256` of libevmjit/Arith256.cpp: the functions on words that it emits.
pub mod Division
pub mod Signed
pub mod Power
pub mod Tests
