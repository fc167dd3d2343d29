-- ===== src/Gas.antt =====
-- Gas: the schedule of libevmjit/JIT.h, and libevmjit/GasMeter.h and .cpp.
pub mod Schedule
pub mod Check
pub mod Meter
pub mod Checks
pub mod Metering
pub mod Dynamic
pub mod Tests
