-- ===== src/Ps.antt =====
-- rsi/rsi_91x_ps.c: power save, and the access that the host needs to transmit while the device may
-- sleep.
pub mod State
pub mod Request
pub mod Power
pub mod Timer
pub mod Protocol
pub mod Access
pub mod Gpio
