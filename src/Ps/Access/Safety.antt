-- ===== src/Ps/Access/Safety.antt =====
-- When access is taken away and given, and the sleep of the device acknowledged (rsi/rsi_91x_ps.c,
-- rsi/rsi_91x_mgmt.c).
use si91x_rcp_driver.Prelude.{
  ℕ, zero, suc, ◌+◌, ◌<◌, ◌≡◌, ◌≢◌, ◌⊎◌, refl, Bool, true, false, update, arith,
}
use si91x_rcp_driver.Ps.Access.{
  Access, max_ids, intends_from, protocol_tx_access, wake_waiting_from, sleep_exit_recvd,
  send_ack_for_ulp_entry, process_ulp_sleep_notify, set_intention, clear_tx_intention, request_tx,
  granted, await_tx, set_tx_intention,
}

wake_waiting_from-same :
    (n i : ℕ) (s : Access) (j : ℕ)
    → let t = wake_waiting_from n i s in
      (t.common_hal_tx_access ≡ s.common_hal_tx_access)
      × ((t.techs j).tx_intention ≡ (s.techs j).tx_intention)
      × (t.acks ≡ s.acks)
unfolding wake_waiting_from
wake_waiting_from-same zero i s j = (refl, refl, refl)
wake_waiting_from-same (suc n) i s j = ground (
  arith,
  wake_waiting_from-same n (i + 1) s j,
  wake_waiting_from-same n (i + 1)
      (record s {
        techs = update s.techs i (record (s.techs i) { wait_for_tx_access = false });
        wake_ups = s.wake_ups + 1;
      })
      j,
)

protocol_tx_access-none :
    (s : Access) (j : ℕ)
    → protocol_tx_access s ≡ false
    → j < max_ids
    → (s.techs j).tx_intention ≡ false
unfolding protocol_tx_access intends_from
protocol_tx_access-none s zero h lt = ground arith
protocol_tx_access-none s (suc zero) h lt = ground arith
protocol_tx_access-none s (suc (suc zero)) h lt = ground arith
protocol_tx_access-none s (suc (suc (suc j))) h lt = absurd (omega arith)

-- An operation of the driver on the state: a notification of the device, or a protocol that sets or
-- clears its intention.
pub data Op : Type 0 where
  notify : (entry : Bool) → Op
  begin : (id : ℕ) → Op
  finish : (id : ℕ) → Op

abbrev pub step : (ℕ → Bool) → ℕ → Op → Access → Access
step alloc token (notify entry) s = process_ulp_sleep_notify alloc token entry s
step alloc token (begin id) s = request_tx id s
step alloc token (finish id) s = clear_tx_intention alloc id s

-- The device's sleep is acknowledged, or access withdrawn, by a step only when afterwards no
-- protocol intends to transmit.
pub step-revokes :
    (alloc : ℕ → Bool) (token : ℕ) (op : Op) (s : Access) (j : ℕ)
    → j < max_ids
    → ((step alloc token op s).acks ≢ s.acks)
      ⊎ ((s.common_hal_tx_access ≡ true) × ((step alloc token op s).common_hal_tx_access ≡ false))
    → ((step alloc token op s).techs j).tx_intention ≡ false
unfolding process_ulp_sleep_notify request_tx clear_tx_intention send_ack_for_ulp_entry
    sleep_exit_recvd set_intention
step-revokes alloc token (notify entry) s j lt h = ground (
  arith,
  protocol_tx_access-none (record s { sleep_entry_received = true; ulp_token = token }) j,
  wake_waiting_from-same max_ids 0
      (record s {
        sleep_entry_received = true;
        ulp_token = token;
        common_hal_tx_access = true;
        ulp_sleep_ack_sent = false;
      })
      j,
  wake_waiting_from-same max_ids 0 (record s { ulp_token = 0xABCD; common_hal_tx_access = true }) j,
)
step-revokes alloc token (begin id) s j lt h = ground arith
step-revokes alloc token (finish id) s j lt h =
    ground (arith, protocol_tx_access-none (set_intention id false s) j)

wake_waiting-awake :
    (s : Access) (j : ℕ)
    → j < max_ids
    → ((wake_waiting_from max_ids 0 s).techs j).wait_for_tx_access ≡ false
unfolding wake_waiting_from
wake_waiting-awake s zero lt = ground arith
wake_waiting-awake s (suc zero) lt = ground arith
wake_waiting-awake s (suc (suc zero)) lt = ground arith
wake_waiting-awake s (suc (suc (suc j))) lt = absurd (omega arith)

-- A sleep exit of the device grants access, leaves no protocol waiting, and changes no intention and
-- no count of acknowledgements.
pub sleep_exit_recvd_lem :
    (s : Access) (j : ℕ)
    → j < max_ids
    → ((sleep_exit_recvd s).common_hal_tx_access ≡ true)
      × (((sleep_exit_recvd s).techs j).wait_for_tx_access ≡ false)
      × (((sleep_exit_recvd s).techs j).tx_intention ≡ (s.techs j).tx_intention)
      × ((sleep_exit_recvd s).acks ≡ s.acks)
unfolding sleep_exit_recvd
sleep_exit_recvd_lem s j lt = ground (
  arith,
  wake_waiting-awake (record s { common_hal_tx_access = true }) j lt,
  wake_waiting_from-same max_ids 0 (record s { common_hal_tx_access = true }) j,
)

-- A protocol that is told that it may transmit, after a wait in which nobody cleared its intention,
-- finds access granted and its intention set.
pub set_tx_intention-granted :
    (wait : Access → Bool × Access) (id : ℕ) (s : Access)
    → ((t : Access) → (((wait t).1).techs id).tx_intention ≡ (t.techs id).tx_intention)
    → (set_tx_intention wait id s).0 ≡ granted
    → ((set_tx_intention wait id s).1.common_hal_tx_access ≡ true)
      × (((set_tx_intention wait id s).1.techs id).tx_intention ≡ true)
unfolding set_tx_intention await_tx request_tx set_intention
set_tx_intention-granted wait id s keeps h = grind (arith, keeps)
