-- ===== src/Boot.antt =====
-- The boot loader commands, the upgrade of the flash and the loading of the firmware of
-- rsi/rsi_91x_hal.c.
pub mod Io
pub mod Command
pub mod Upgrade
pub mod Image
pub mod Firmware
