-- ===== src/Memory.antt =====
-- The memory of a contract: libevmjit/Memory.cpp.
pub mod Require
pub mod Expansion
pub mod Copy
pub mod Word
pub mod Tests
