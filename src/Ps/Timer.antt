-- ===== src/Ps/Timer.antt =====
-- The traffic timer of rsi/rsi_91x_ps.c: power save resumes when no data came for a while.
-- `to_jiffies` is `msecs_to_jiffies` and `now` is `jiffies`; both are the kernel's.
use si91x_rcp_driver.Prelude.{
  ℕ, ◌+◌, ◌-◌, Bool, true, false, not, ◌&&◌, ◌||◌, Option, none, some, ◌==◌, if◌then◌else◌,
}
use si91x_rcp_driver.Ps.State.{ps_none, ps_enabled, Adapter}
use si91x_rcp_driver.Ps.Power.{ps_eq, enable_ps, disable_ps}

-- `if (ps_info->monitor_interval) ... else ...`
unfoldable pub interval : Adapter → ℕ
interval a =
    if not (a.ps_info.monitor_interval == 0)
    then a.ps_info.monitor_interval
    else a.rx_data_inactive_interval

-- `adapter->vifs[adapter->sc_nvifs - 1]`
unfoldable pub last_vif : Adapter → Option Bool
last_vif a = if a.sc_nvifs == 0 then none else a.vif_assoc (a.sc_nvifs - 1)

module _ (alloc : ℕ → Bool) (to_jiffies : ℕ → ℕ) where
  unfoldable pub init_traffic_timer : Adapter → ℕ → ℕ → Adapter
  init_traffic_timer a timeout now = record a {
    timer_set = true;
    timer = some (to_jiffies timeout + now);
  }

  -- The timer has fired, so it is not pending when the callback runs. The interface looked at is the
  -- last one; with none there the source reads before the array (undefined), and here stops.
  unfoldable pub traffic_timer_callback : Adapter → ℕ → Adapter
  traffic_timer_callback fired now =
      let a = record fired { timer = none } in
      elim (last_vif a) [
        | none ↦ a
        | some assoc ↦
            if assoc
              && (a.user_ps_en
                  && (not (a.ps_info.monitor_interval == 0)
                      || not (a.rx_data_inactive_interval == 0)))
            then (if not a.wifi_paused && ps_eq a.ps_state ps_none
                then enable_ps alloc (
                    if a.disable_ps_from_lmac then record a { disable_ps_from_lmac = false } else a)
                else (if not (ps_eq a.ps_state ps_enabled)
                    then record a { timer = some (to_jiffies (interval a) + now) }
                    else a))
            else a
      ]

  -- `init_traffic_timer` is given a number of jiffies and converts it once more.
  unfoldable pub check_data_load : Adapter → ℕ → Adapter
  check_data_load a now =
      let a₁ = if ps_eq a.ps_state ps_enabled then disable_ps alloc a else a in
      let d = interval a₁ in
      let a₂ = record a₁ { var_interval = to_jiffies d; old_jiffies = now } in
      if a₂.timer_set
      then record a₂ { timer = some (to_jiffies d + now) }
      else init_traffic_timer a₂ (to_jiffies d) now

  unfoldable pub check_traffic_pwr_save : Adapter → ℕ → Adapter
  check_traffic_pwr_save a now =
      if a.user_ps_en && (not (a.ps_info.monitor_interval == 0) || a.disable_ps_from_lmac)
      then check_data_load a now
      else a
