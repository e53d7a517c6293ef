-- ===== src/Tests/Ps.antt =====
-- Power save on small states.
use si91x_rcp_driver.Prelude.{
  ℕ, ◌≡◌, refl, inr, Bool, true, false, none, some, List, [], ◌∷◌, arith, ◌==◌,
}
use si91x_rcp_driver.Ps.State.{ps_none, ps_enabled, Adapter}
use si91x_rcp_driver.Ps.Request.{ps_request, send_ps_request}
use si91x_rcp_driver.Ps.Power.{enable_ps, handle_ps_confirm, cfm_type, modify_ps_state, ps_eq}
use si91x_rcp_driver.Ps.Protocol.{Agrees, user_enables, confirms, here, next, Reach-Agrees}
use si91x_rcp_driver.Ps.Access.{Access, Tech, set_tx_intention, set_intention}
use si91x_rcp_driver.Ps.Access.Safety.{finish, step, step-revokes, set_tx_intention-granted}
use si91x_rcp_driver.Ps.Access.{
  clear_tx_intention, protocol_tx_access, intends_from, send_ack_for_ulp_entry, await_tx,
  request_tx,
}

abbrev station : Adapter
station = record {
  ps_state = ps_none;
  ps_info = record {
    enabled = true;
    sleep_type = 2;
    tx_threshold = 0;
    rx_threshold = 0;
    tx_hysterisis = 0;
    rx_hysterisis = 0;
    monitor_interval = 50;
    listen_interval_duration = 0;
    num_bcns_per_lis_int = 0;
    dtim_interval_duration = 0;
    num_dtims_per_sleep = 1;
    deep_sleep_wakeup_period = 300;
    uapsd_wakeup_period = 100;
  };
  user_ps_en = true;
  wifi_paused = false;
  disable_ps_from_lmac = false;
  rx_data_inactive_interval = 0;
  uapsd_bitmap = 0;
  uapsd_max_sp_len = 0;
  sc_nvifs = 1;
  vif_assoc = λ i. some true;
  sent = [];
  allocs = 0;
  timer_set = true;
  timer = none;
  var_interval = 0;
  old_jiffies = 0;
}

abbrev always : ℕ → Bool
always n = true

abbrev once : ℕ → Bool
once n = n == 0

abbrev sleep_confirm : List ℕ
sleep_confirm = 0 ∷ 0 ∷ 0 ∷ 0 ∷ 0 ∷ 0 ∷ 0 ∷ 0 ∷ 0 ∷ 0 ∷ 0 ∷ 0 ∷ 1 ∷ 0 ∷ []

asleep : (handle_ps_confirm (enable_ps always station) sleep_confirm).1.ps_state ≡ ps_enabled
unfolding handle_ps_confirm enable_ps send_ps_request modify_ps_state ps_eq cfm_type
asleep = refl

request_words : (ps_request station false).desc_word_0 ≡ 0xC01A
unfolding ps_request
request_words = refl

abbrev confirmed : Adapter
confirmed = (handle_ps_confirm (enable_ps always station) sleep_confirm).1

Reach-Agrees_example : Agrees confirmed.ps_state confirmed.sent
Reach-Agrees_example =
    Reach-Agrees {alloc = always} {to_jiffies = λ n. n} {a = station}
      (next (next here user_enables) (confirms sleep_confirm)) tt

-- Protocol 1 wants to transmit, and a sleep entry was received and not acknowledged.
abbrev techs : ℕ → Tech
techs i = record { tx_intention = i == 1; wait_for_tx_access = i == 2 }

abbrev awake_host : Access
awake_host = record {
  techs = techs;
  common_hal_tx_access = true;
  sleep_entry_received = true;
  ulp_sleep_ack_sent = false;
  ulp_token = 0;
  usb_suspended = false;
  resume_timer = false;
  acks = 0;
  wake_ups = 0;
  allocs = 0;
}

step-revokes_example : ((step always 5 (finish 1) awake_host).techs 0).tx_intention ≡ false
unfolding clear_tx_intention set_intention protocol_tx_access intends_from send_ack_for_ulp_entry
step-revokes_example =
    step-revokes always 5 (finish 1) awake_host 0 (omega arith) (inr (refl, refl))

-- The device wakes up during the wait.
abbrev woken : Access → Bool × Access
woken s = (true, record s { common_hal_tx_access = true })

abbrev denied : Access
denied = record awake_host { common_hal_tx_access = false }

set_tx_intention-granted_example :
    ((set_tx_intention woken 0 denied).1.common_hal_tx_access ≡ true)
    × (((set_tx_intention woken 0 denied).1.techs 0).tx_intention ≡ true)
unfolding set_tx_intention await_tx request_tx set_intention
set_tx_intention-granted_example = set_tx_intention-granted woken 0 denied (λ t. refl) refl
