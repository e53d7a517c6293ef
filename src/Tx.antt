-- ===== src/Tx.antt =====
-- rsi/rsi_91x_core.c, the transmit side, with the structs of rsi/rsi_main.h that it works on, in
-- the default build of the Makefile (every CONFIG_ option off).
pub mod State
pub mod Queue
pub mod Select
pub mod Process
