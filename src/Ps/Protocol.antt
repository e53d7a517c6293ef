-- ===== src/Ps/Protocol.antt =====
-- The power-save state against the requests sent to the device, over any sequence of events.
use si91x_rcp_driver.Prelude.{
  ℕ, ◌+◌, ◌≡◌, ◌≢◌, ◌⊎◌, Bool, true, false, Option, none, some, List, [], ◌∷◌, arith,
}
use si91x_rcp_driver.Ps.State.{
  PsState, ps_none, ps_enable_req_sent, ps_disable_req_sent, ps_enabled, PsInfo, RequestPs, Adapter,
}
use si91x_rcp_driver.Ps.Request.{sleep_request, wakeup_request, ps_request, send_ps_request}
use si91x_rcp_driver.Ps.Power.{
  modify_ps_state, ps_eq, enable_ps, disable_ps, conf_uapsd, cfm_type, handle_ps_confirm,
}
use si91x_rcp_driver.Ps.Timer.{
  interval, last_vif, init_traffic_timer, traffic_timer_callback, check_data_load,
  check_traffic_pwr_save,
}

-- The kind of the last request that a state stands for; a driver that is awake may have sent none.
abbrev pub Agrees : PsState → List RequestPs → Type 0
Agrees ps_none [] = Unit
Agrees ps_none (r ∷ rs) = r.desc_word_6 ≡ wakeup_request
Agrees ps_enable_req_sent [] = ⊥
Agrees ps_enable_req_sent (r ∷ rs) = r.desc_word_6 ≡ sleep_request
Agrees ps_disable_req_sent [] = ⊥
Agrees ps_disable_req_sent (r ∷ rs) = r.desc_word_6 ≡ wakeup_request
Agrees ps_enabled [] = ⊥
Agrees ps_enabled (r ∷ rs) = r.desc_word_6 ≡ sleep_request

-- What happens to the power-save state: a request of the user, a configuration of U-APSD, the
-- traffic timer, received traffic, a confirmation of the device with any content, and changes of
-- settings by the rest of the driver.
pub data Event (alloc : ℕ → Bool) (to_jiffies : ℕ → ℕ) (a : Adapter) : Adapter → Type 0 where
  user_enables : Event alloc to_jiffies a (enable_ps alloc a)
  user_disables : Event alloc to_jiffies a (disable_ps alloc a)
  configures : alloc (a.allocs + 1) ≡ true → Event alloc to_jiffies a (conf_uapsd alloc a)
  timer_fires : (now : ℕ) → Event alloc to_jiffies a (traffic_timer_callback alloc to_jiffies a now)
  receives : (now : ℕ) → Event alloc to_jiffies a (check_traffic_pwr_save alloc to_jiffies a now)
  confirms : (msg : List ℕ) → Event alloc to_jiffies a (handle_ps_confirm a msg).1
  settings :
      (info : PsInfo) (en paused lmac : Bool) (inactive : ℕ) (vifs : ℕ) (assoc : ℕ → Option Bool)
      → Event alloc to_jiffies a (record a {
        ps_info = info;
        user_ps_en = en;
        wifi_paused = paused;
        disable_ps_from_lmac = lmac;
        rx_data_inactive_interval = inactive;
        sc_nvifs = vifs;
        vif_assoc = assoc;
      })

pub data Reach (alloc : ℕ → Bool) (to_jiffies : ℕ → ℕ) (a : Adapter) : Adapter → Type 0 where
  here : Reach alloc to_jiffies a a
  next :
      {b c : Adapter}
      → Reach alloc to_jiffies a b
      → Event alloc to_jiffies b c
      → Reach alloc to_jiffies a c

enable_ps-Agrees :
    (alloc : ℕ → Bool) (a : Adapter)
    → Agrees a.ps_state a.sent
    → Agrees (enable_ps alloc a).ps_state (enable_ps alloc a).sent
unfolding enable_ps send_ps_request modify_ps_state ps_request
enable_ps-Agrees alloc a h = ground arith

disable_ps-Agrees :
    (alloc : ℕ → Bool) (a : Adapter)
    → Agrees a.ps_state a.sent
    → Agrees (disable_ps alloc a).ps_state (disable_ps alloc a).sent
unfolding disable_ps send_ps_request modify_ps_state ps_request
disable_ps-Agrees alloc a h = ground arith

conf_uapsd-Agrees :
    (alloc : ℕ → Bool) (a : Adapter)
    → alloc (a.allocs + 1) ≡ true
    → Agrees a.ps_state a.sent
    → Agrees (conf_uapsd alloc a).ps_state (conf_uapsd alloc a).sent
unfolding conf_uapsd send_ps_request ps_request ps_eq
conf_uapsd-Agrees alloc a e h = ground arith

handle_ps_confirm-Agrees :
    (a : Adapter) (msg : List ℕ)
    → Agrees a.ps_state a.sent
    → Agrees (handle_ps_confirm a msg).1.ps_state (handle_ps_confirm a msg).1.sent
unfolding handle_ps_confirm ps_eq modify_ps_state
handle_ps_confirm-Agrees a msg h = ground arith

timer_fires-Agrees :
    (alloc : ℕ → Bool) (to_jiffies : ℕ → ℕ) (a : Adapter) (now : ℕ)
    → Agrees a.ps_state a.sent
    → let b = traffic_timer_callback alloc to_jiffies a now in Agrees b.ps_state b.sent
unfolding traffic_timer_callback
timer_fires-Agrees alloc to_jiffies a now h = ground (
  arith,
  enable_ps-Agrees alloc (record a { timer = none }) h,
  enable_ps-Agrees alloc (record a { timer = none; disable_ps_from_lmac = false }) h,
)

receives-Agrees :
    (alloc : ℕ → Bool) (to_jiffies : ℕ → ℕ) (a : Adapter) (now : ℕ)
    → Agrees a.ps_state a.sent
    → let b = check_traffic_pwr_save alloc to_jiffies a now in Agrees b.ps_state b.sent
unfolding check_traffic_pwr_save check_data_load init_traffic_timer
receives-Agrees alloc to_jiffies a now h = ground (arith, disable_ps-Agrees alloc a h)

Event-Agrees :
    {alloc : ℕ → Bool} {to_jiffies : ℕ → ℕ} {a b : Adapter}
    → Event alloc to_jiffies a b
    → Agrees a.ps_state a.sent
    → Agrees b.ps_state b.sent
Event-Agrees {alloc} {a} user_enables h = enable_ps-Agrees alloc a h
Event-Agrees {alloc} {a} user_disables h = disable_ps-Agrees alloc a h
Event-Agrees {alloc} {a} (configures e) h = conf_uapsd-Agrees alloc a e h
Event-Agrees {alloc} {to_jiffies} {a} (timer_fires now) h =
    timer_fires-Agrees alloc to_jiffies a now h
Event-Agrees {alloc} {to_jiffies} {a} (receives now) h = receives-Agrees alloc to_jiffies a now h
Event-Agrees {a} (confirms msg) h = handle_ps_confirm-Agrees a msg h
Event-Agrees (settings info en paused lmac inactive vifs assoc) h = h

-- From a state that agrees with the last request sent, every sequence of events in which the second
-- buffer of a U-APSD configuration is allocated leads to a state that agrees with it: PS_NONE and
-- PS_DISABLE_REQ_SENT with a wake-up request (PS_NONE also with no request yet), PS_ENABLE_REQ_SENT
-- and PS_ENABLED with a sleep request.
pub Reach-Agrees :
    {alloc : ℕ → Bool} {to_jiffies : ℕ → ℕ} {a b : Adapter}
    → Reach alloc to_jiffies a b
    → Agrees a.ps_state a.sent
    → Agrees b.ps_state b.sent
Reach-Agrees here h = h
Reach-Agrees (next r e) h = Event-Agrees e (Reach-Agrees r h)

-- If the second buffer of a U-APSD configuration is not allocated while power save is enabled, the
-- state stays PS_ENABLED though the last request sent to the device was to wake up.
pub conf_uapsd_half :
    (alloc : ℕ → Bool) (a : Adapter)
    → a.ps_state ≡ ps_enabled
    → alloc a.allocs ≡ true
    → alloc (a.allocs + 1) ≡ false
    → ((conf_uapsd alloc a).ps_state ≡ ps_enabled)
      × ((conf_uapsd alloc a).sent ≡ ps_request a false ∷ a.sent)
unfolding conf_uapsd send_ps_request ps_eq
conf_uapsd_half alloc a s e f = ground arith

-- A confirmation makes the state PS_ENABLED only by the sleep type in PS_ENABLE_REQ_SENT, and PS_NONE
-- only by the wake-up type in PS_DISABLE_REQ_SENT; it changes the state in no other way, and it is
-- refused exactly when its type is neither.
pub handle_ps_confirm_lem :
    (a : Adapter) (msg : List ℕ)
    → (((handle_ps_confirm a msg).1.ps_state ≡ a.ps_state)
        ⊎ (((cfm_type msg ≡ sleep_request)
              × (a.ps_state ≡ ps_enable_req_sent)
              × ((handle_ps_confirm a msg).1.ps_state ≡ ps_enabled))
            ⊎ ((cfm_type msg ≡ wakeup_request)
                × (a.ps_state ≡ ps_disable_req_sent)
                × ((handle_ps_confirm a msg).1.ps_state ≡ ps_none))))
      × ((((handle_ps_confirm a msg).0 ≡ true)
            × ((cfm_type msg ≡ sleep_request) ⊎ (cfm_type msg ≡ wakeup_request)))
          ⊎ (((handle_ps_confirm a msg).0 ≡ false)
              × (cfm_type msg ≢ sleep_request)
              × (cfm_type msg ≢ wakeup_request)))
unfolding handle_ps_confirm ps_eq modify_ps_state
handle_ps_confirm_lem a msg = ground arith

-- While the station is associated, power save is wanted, an interval is set and the request can be
-- allocated, the timer's callback leaves power save enabled or asked for, or the timer armed one
-- interval ahead: power save does not stall.
pub traffic_timer_callback_keeps_going :
    (alloc : ℕ → Bool) (to_jiffies : ℕ → ℕ) (a : Adapter) (now : ℕ)
    → last_vif a ≡ some true
    → a.user_ps_en ≡ true
    → interval a ≢ 0
    → alloc a.allocs ≡ true
    → let b = traffic_timer_callback alloc to_jiffies a now in
      (b.ps_state ≡ ps_enable_req_sent)
      ⊎ ((b.ps_state ≡ ps_enabled) ⊎ (b.timer ≡ some (to_jiffies (interval a) + now)))
unfolding traffic_timer_callback enable_ps send_ps_request modify_ps_state ps_eq interval last_vif
traffic_timer_callback_keeps_going alloc to_jiffies a now assoc want int e = ground arith
