-- ===== src/Init.antt =====
-- The initialisation of the device, from its card-ready indication to the last confirmation:
-- `rsi_handle_card_ready` and `rsi_handle_ta_confirm` of rsi/rsi_91x_mgmt.c.
pub mod State
pub mod Ready
pub mod Confirm
pub mod Order
pub mod Advance
