-- ===== src/Hardware.antt =====
-- src/threshold/hardware: the simulated display and stop interlock.
pub mod Display
pub mod Estop
