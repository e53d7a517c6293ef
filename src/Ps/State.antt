-- ===== src/Ps/State.antt =====
-- The power-save state of `struct rsi_hw` and `struct rsi_common`.
use si91x_rcp_driver.Prelude.{ℕ, Bool, List, Option}

-- `enum ps_state` (rsi/rsi_ps.h)
pub data PsState : Type 0 where
  ps_none ps_enable_req_sent ps_disable_req_sent ps_enabled : PsState

-- `struct rsi_ps_info` (rsi/rsi_ps.h)
pub record PsInfo : Type 0 where
  pub enabled : Bool
  pub sleep_type : ℕ
  pub tx_threshold : ℕ
  pub rx_threshold : ℕ
  pub tx_hysterisis : ℕ
  pub rx_hysterisis : ℕ
  pub monitor_interval : ℕ
  pub listen_interval_duration : ℕ
  pub num_bcns_per_lis_int : ℕ
  pub dtim_interval_duration : ℕ
  pub num_dtims_per_sleep : ℕ
  pub deep_sleep_wakeup_period : ℕ
  pub uapsd_wakeup_period : ℕ

-- `struct rsi_request_ps` (rsi/rsi_mgmt.h), with the words of the descriptor that are filled in.
pub record RequestPs : Type 0 where
  pub desc_word_0 : ℕ
  pub desc_word_1 : ℕ
  pub desc_word_6 : ℕ
  pub enable : ℕ
  pub sleep_type : ℕ
  pub connected_sleep : ℕ
  pub num_bcns_per_lis_int : ℕ
  pub sleep_duration : ℕ
  pub ps_uapsd_acs : ℕ
  pub ps_uapsd_wakeup_period : ℕ
  pub ps_listen_interval_duration : ℕ
  pub ps_dtim_interval_duration : ℕ
  pub ps_num_dtim_intervals : ℕ

-- `vifs` holds, for each interface that is there, whether it is associated; `sent` the requests
-- queued for the device, last one first; `allocs` how many buffers were asked for; `timer` the
-- expiry that `traffic_timer` is armed with, and `timer_set` that its function is set.
pub record Adapter : Type 0 where
  pub ps_state : PsState
  pub ps_info : PsInfo
  pub user_ps_en : Bool
  pub wifi_paused : Bool
  pub disable_ps_from_lmac : Bool
  pub rx_data_inactive_interval : ℕ
  pub uapsd_bitmap : ℕ
  pub uapsd_max_sp_len : ℕ
  pub sc_nvifs : ℕ
  pub vif_assoc : ℕ → Option Bool
  pub sent : List RequestPs
  pub allocs : ℕ
  pub timer_set : Bool
  pub timer : Option ℕ
  pub var_interval : ℕ
  pub old_jiffies : ℕ
