-- ===== src/Compiler.antt =====
-- The compiler proper, libevmjit/Compiler.cpp.
pub mod Blocks
pub mod Arithmetic
pub mod Emit
pub mod Observer
pub mod Setting
pub mod Bytes
pub mod Handlers
pub mod Jumps
pub mod Main
