-- ===== src/Ps/Access.antt =====
-- Who may transmit while the device may sleep: `protocol_tx_access`, `sleep_exit_recvd` and
-- `set_clr_tx_intention` of rsi/rsi_91x_ps.c (without a GPIO handshake), `rsi_send_ack_for_ulp_entry`
-- and `rsi_process_ulp_sleep_notify` of rsi/rsi_91x_mgmt.c. What one thread does under
-- `tx_access_lock` is one step.
pub mod Safety
use si91x_rcp_driver.Prelude.{
  ℕ, zero, suc, ◌+◌, ◌≡◌, Bool, true, false, not, ◌&&◌, ◌||◌, ltb, ◌==◌, if◌then◌else◌, update,
}

abbrev pub max_ids : ℕ
max_ids = 3

-- `struct wireless_techs`
pub record Tech : Type 0 where
  pub tx_intention : Bool
  pub wait_for_tx_access : Bool

-- `acks` counts the acknowledgements written to the device, `wake_ups` the waiting protocols woken,
-- and `allocs` the buffers asked for. `usb_suspended` is `rsi_host_intf == RSI_HOST_INTF_USB` with
-- `usb_intf_in_suspend`; `resume_timer` that the suspend timer was cut short.
pub record Access : Type 0 where
  pub techs : ℕ → Tech
  pub common_hal_tx_access : Bool
  pub sleep_entry_received : Bool
  pub ulp_sleep_ack_sent : Bool
  pub ulp_token : ℕ
  pub usb_suspended : Bool
  pub resume_timer : Bool
  pub acks : ℕ
  pub wake_ups : ℕ
  pub allocs : ℕ

unfoldable pub intends_from : ℕ → ℕ → Access → Bool
intends_from zero i s = false
intends_from (suc n) i s = (s.techs i).tx_intention || intends_from n (i + 1) s

unfoldable pub protocol_tx_access : Access → Bool
protocol_tx_access s = intends_from max_ids 0 s

-- `while (proto_id < MAX_IDS)`, the same loop in both places
unfoldable pub wake_waiting_from : ℕ → ℕ → Access → Access
wake_waiting_from zero i s = s
wake_waiting_from (suc n) i s = wake_waiting_from n (i + 1) (
    if (s.techs i).wait_for_tx_access
    then record s {
      techs = update s.techs i (record (s.techs i) { wait_for_tx_access = false });
      wake_ups = s.wake_ups + 1;
    }
    else s)

unfoldable pub sleep_exit_recvd : Access → Access
sleep_exit_recvd s = wake_waiting_from max_ids 0 (record s { common_hal_tx_access = true })

-- `alloc n` says whether the `n`-th buffer is there.
unfoldable pub send_ack_for_ulp_entry : (ℕ → Bool) → Access → Access
send_ack_for_ulp_entry alloc s =
    if alloc s.allocs
    then record s { allocs = s.allocs + 1; ulp_sleep_ack_sent = true; acks = s.acks + 1 }
    else record s { allocs = s.allocs + 1 }

-- The flag is `(msg[12] & BIT(0)) == ULP_SLEEP_ENTRY`; `token` is ULP_TOKEN.
unfoldable pub process_ulp_sleep_notify : (ℕ → Bool) → ℕ → Bool → Access → Access
process_ulp_sleep_notify alloc token entry s =
    if entry
    then (let s₁ = record s { sleep_entry_received = true; ulp_token = token } in
        if not (protocol_tx_access s₁)
        then send_ack_for_ulp_entry alloc (record s₁ { common_hal_tx_access = false })
        else wake_waiting_from max_ids 0
            (record s₁ { common_hal_tx_access = true; ulp_sleep_ack_sent = false }))
    else sleep_exit_recvd (record s { ulp_token = 0xABCD })

unfoldable pub set_intention : ℕ → Bool → Access → Access
set_intention id b s = record s {
  techs = update s.techs id (record (s.techs id) { tx_intention = b });
}

-- `set_clr_tx_intention(common, proto_id, 0)`
unfoldable pub clear_tx_intention : (ℕ → Bool) → ℕ → Access → Access
clear_tx_intention alloc id s =
    let s₁ = set_intention id false s in
    if s₁.sleep_entry_received && not s₁.ulp_sleep_ack_sent
    then (if not (protocol_tx_access s₁)
        then send_ack_for_ulp_entry alloc (record s₁ { common_hal_tx_access = false })
        else s₁)
    else s₁

-- The part of `set_clr_tx_intention(common, proto_id, 1)` under the lock.
unfoldable pub request_tx : ℕ → Access → Access
request_tx id s =
    let s₁ = set_intention id true s in
    if s₁.usb_suspended then record s₁ { resume_timer = true } else s₁

pub data Status : Type 0 where
  granted eperm etime : Status

-- The rest of it. `wait` is `wait_event_timeout`: what the other threads do meanwhile, and whether
-- the flag was found cleared in time.
unfoldable pub await_tx : (Access → Bool × Access) → ℕ → Access → Status × Access
await_tx wait id s =
    if s.common_hal_tx_access
    then (granted, s)
    else (let (woken, s₁) = wait (record s {
      techs = update s.techs id (record (s.techs id) { wait_for_tx_access = true });
    }) in
        if woken then ((if s₁.common_hal_tx_access then granted else eperm), s₁) else (etime, s₁))

unfoldable pub set_tx_intention : (Access → Bool × Access) → ℕ → Access → Status × Access
set_tx_intention wait id s = await_tx wait id (request_tx id s)
