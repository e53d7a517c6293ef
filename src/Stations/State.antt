-- ===== src/Stations/State.antt =====
-- The station table of struct rsi_common (rsi/rsi_main.h), and what its handlers touch besides.
use si91x_rcp_driver.Prelude.{ℕ, Bool, Option, List}

-- A station of the kernel, with the address by which the driver tells stations apart.
pub record Peer : Type 0 where
  pub addr : ℕ
  pub wme : Bool
  pub aid : ℕ

-- struct rsi_sta
pub record Slot : Type 0 where
  pub sta : Option Peer
  pub sta_id : ℕ  -- 16 bits; -1 is 0xFFFF
  pub seq_no : List ℕ
  pub start_tx_aggr : List Bool

-- struct ieee80211_key_conf
pub record Key : Type 0 where
  pub cipher : ℕ
  pub keyidx : ℕ
  pub keylen : ℕ

-- Frames for the device.
pub data Frame : Type 0 where
  peer_notify : (connected : Bool) (addr aid sta_id : ℕ) (qos : Bool) → Frame
  auto_rate : (sta_id : ℕ) → Frame
  unblock : Frame
  set_key : (descriptor sta_id : ℕ) → Frame

pub record Mac : Type 0 where
  pub stations : ℕ → Slot
  pub num_stations : ℕ
  pub max_stations : ℕ
  pub key : Option Key
  pub min_rate : ℕ
  pub hw_data_qs_blocked : Bool
  pub peer_notify_state : Bool
  pub sta_bssid : ℕ
  pub traffic_timer : Bool  -- it is pending
  pub sgi : Bool
  pub queue : List Frame  -- tx_queue[MGMT_SOFT_Q], its head first
  pub allocs : ℕ  -- calls of dev_alloc_skb so far
