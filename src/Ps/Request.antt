-- ===== src/Ps/Request.antt =====
-- `rsi_send_ps_request` and `rsi_send_internal_mgmt_frame` of rsi/rsi_91x_mgmt.c, in the default
-- build for Linux 6.0 and later, and `rsi_default_ps_params` of rsi/rsi_91x_ps.c.
use si91x_rcp_driver.Prelude.{
  ℕ, ◌+◌, ◌-◌, ◌*◌, ◌%◌, ◌^◌, Bool, true, false, none, some, ◌∷◌, ◌==◌, if◌then◌else◌, not,
}
use Prim.Native.Nat.{bit_and, bit_or}
use si91x_rcp_driver.Ps.State.{PsInfo, RequestPs, Adapter}

abbrev pub sleep_request : ℕ
sleep_request = 1

abbrev pub wakeup_request : ℕ
wakeup_request = 2

abbrev pub ulp_power_save : ℕ
ulp_power_save = 2

unfoldable pub default_ps_params : ℕ → PsInfo
default_ps_params ps_sleep_type = record {
  enabled = true;
  sleep_type = ps_sleep_type;
  tx_threshold = 0;
  rx_threshold = 0;
  tx_hysterisis = 0;
  rx_hysterisis = 0;
  monitor_interval = 0;
  listen_interval_duration = 0;
  num_bcns_per_lis_int = 0;
  dtim_interval_duration = 0;
  num_dtims_per_sleep = 1;
  deep_sleep_wakeup_period = if ps_sleep_type == ulp_power_save then 300 else 100;
  uapsd_wakeup_period = 100;
}

-- `sizeof(struct rsi_request_ps)`: 16 bytes of descriptor, 12 of `ps_sleep`, and 14 more, packed.
abbrev frame_len : ℕ
frame_len = 42

-- Is the device to keep the beacons of an access point? The first slot of `vifs` decides; with no
-- interface at all it does not. A null first slot would be read through (undefined): here `false`.
unfoldable pub is_assoc : Adapter → Bool
is_assoc a = if a.sc_nvifs == 0 then false else elim (a.vif_assoc 0) [ none ↦ false | some b ↦ b ]

-- The frame. RSI_WIFI_MGMT_Q is 4 and WAKEUP_SLEEP_REQUEST is 5. Bit 15 of the first word is set by
-- `rsi_send_internal_mgmt_frame` in every case.
unfoldable pub ps_request : Adapter → Bool → RequestPs
ps_request a enable =
    let info = a.ps_info in
    let uapsd = not (a.uapsd_bitmap == 0) in
    record {
      desc_word_0 = bit_or (bit_or (frame_len - 16) (4 * 2 ^ 12)) (2 ^ 15);
      desc_word_1 = 5;
      desc_word_6 = if enable then sleep_request else wakeup_request;
      enable = if enable then 1 else 0;
      sleep_type = info.sleep_type;
      connected_sleep = if is_assoc a then 2 else 1;
      num_bcns_per_lis_int = info.num_bcns_per_lis_int;
      sleep_duration = info.deep_sleep_wakeup_period;
      ps_uapsd_acs =
          if uapsd
          then bit_or (bit_and a.uapsd_bitmap 0x0f) (a.uapsd_max_sp_len * 2 ^ 5) % 2 ^ 8
          else 0;
      ps_uapsd_wakeup_period = if uapsd then info.uapsd_wakeup_period else 0;
      ps_listen_interval_duration = info.listen_interval_duration;
      ps_dtim_interval_duration = info.dtim_interval_duration;
      ps_num_dtim_intervals = info.num_dtims_per_sleep;
    }

-- The flag is a status of 0. `alloc n` says whether the `n`-th call of `dev_alloc_skb` succeeds.
unfoldable pub send_ps_request : (ℕ → Bool) → Adapter → Bool → Bool × Adapter
send_ps_request alloc a enable =
    if alloc a.allocs
    then (true, record a { allocs = a.allocs + 1; sent = ps_request a enable ∷ a.sent })
    else (false, record a { allocs = a.allocs + 1 })
