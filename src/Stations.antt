-- ===== src/Stations.antt =====
-- The stations of an access point: the table of rsi/rsi_91x_mac80211.c, and the frames about it that
-- rsi/rsi_91x_mgmt.c queues.
pub mod State
pub mod Notify
pub mod Table
pub mod Scan
pub mod Count
pub mod Keeps
pub mod Invariant
pub mod Map
pub mod Refine
pub mod Order
