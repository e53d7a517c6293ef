-- ===== src/Coex.antt =====
-- rsi/rsi_91x_coex.c: Bluetooth and Zigbee packets wait here for the bus (CONFIG_RSI_COEX_MODE).
pub mod Schedule
use si91x_rcp_driver.Prelude.{
  ℕ, zero, suc, ◌+◌, ◌≡◌, Bool, true, false, not, ◌&&◌, ◌||◌, Option, none, some, List, [], ◌∷◌,
  ◌++◌, ltb, ◌==◌, if◌then◌else◌, update, length, get_or,
}
use si91x_rcp_driver.Tx.State.{SkBuff, invalid_queue, mgmt_soft_q}
use si91x_rcp_driver.Tx.Queue.{skb_dequeue}
use si91x_rcp_driver.Ps.Access.{Access, Status, granted, set_tx_intention, clear_tx_intention}

-- The queues of rsi/rsi_coex.h
abbrev pub coex_q : ℕ
coex_q = 0

abbrev pub bt_q : ℕ
bt_q = 1

abbrev pub wlan_q : ℕ
wlan_q = 2

abbrev pub vip_q : ℕ
vip_q = 3

abbrev pub zigb_q : ℕ
zigb_q = 4

-- RSI_WLAN_Q of rsi/rsi_main.h, by which a caller names the queue that is not kept here
abbrev pub rsi_wlan_q : ℕ
rsi_wlan_q = 3

pub data Radio : Type 0 where
  bt zb : Radio

-- `struct rsi_coex_ctrl_block`, with `common->zb_fsm_state == ZB_DEVICE_READY`, the packets handed
-- to `rsi_send_bt_pkt` and `rsi_send_zb_pkt` (first one first), and whether the thread was woken.
pub record Coex : Type 0 where
  pub coex_tx_qs : ℕ → List SkBuff
  pub zb_ready : Bool
  pub sent : List (Radio × SkBuff)
  pub event : Bool

abbrev pub waiting : Coex → ℕ → Bool
waiting s q = ltb 0 (length (s.coex_tx_qs q))

-- The later tests overwrite the earlier ones.
unfoldable pub determine_coex_q : Coex → ℕ
determine_coex_q s =
    if waiting s wlan_q
    then wlan_q
    else (if waiting s zigb_q
        then zigb_q
        else (if waiting s bt_q
            then bt_q
            else (if waiting s coex_q
                then coex_q
                else (if waiting s vip_q then vip_q else invalid_queue))))

-- How a run of the loop ends: with all done, or in `rsi_send_bt_pkt`, which reads through the null
-- pointer of an empty queue.
pub data Run : Type 0 where
  done : Coex → Run
  null_skb : Coex → Run

-- The branch for BT_Q and ZIGB_Q, which dequeues from BT_Q in both cases. `zigb` is CONFIG_RSI_ZIGB.
-- `none` is a fault. `rsi_send_zb_pkt` refuses a null packet and the loop goes on.
unfoldable pub send_one : Bool → Coex → Option Coex
send_one zigb s =
    let to_zb = zigb && s.zb_ready in
    elim (skb_dequeue (s.coex_tx_qs bt_q)) [
      | none ↦ if to_zb then some s else none
      | some (skb, rest) ↦ some (record s {
        coex_tx_qs = update s.coex_tx_qs bt_q rest;
        sent = s.sent ++ (if to_zb then zb else bt, skb) ∷ [];
      })
    ]

-- `while (1)`; `none` means that the fuel ran out.
unfoldable pub sched_tx_pkts : ℕ → Bool → Coex → Option Run
sched_tx_pkts zero zigb s = none
sched_tx_pkts (suc f) zigb s =
    let q = determine_coex_q s in
    let same = sched_tx_pkts f zigb s in
    if q == invalid_queue
    then some (done s)
    else (if (q == bt_q) || (q == zigb_q)
        then elim (send_one zigb s) [ none ↦ some (null_skb s) | some s₁ ↦ sched_tx_pkts f zigb s₁ ]
        else same)

-- BT_ZB_ID of rsi/rsi_main.h
abbrev pub bt_zb_id : ℕ
bt_zb_id = 1

-- One turn of `rsi_coex_scheduler_thread`, woken by its event.
unfoldable pub scheduler_round :
    (ℕ → Bool) → (Access → Bool × Access) → ℕ → Bool → Coex → Access → Option (Run × Access)
scheduler_round alloc wait f zigb s a =
    let s₁ = record s { event = false } in
    let (status, a₁) = set_tx_intention wait bt_zb_id a in
    let finish : Run → Run × Access = λ r. (r, clear_tx_intention alloc bt_zb_id a₁) in
    elim status [
      | granted ↦ elim (sched_tx_pkts f zigb s₁) [ none ↦ none | some r ↦ some (finish r) ]
      | _ ↦ some (finish (done s₁))
    ]

-- What `rsi_coex_send_pkt` does with a packet, besides queueing it here.
pub data Sent : Type 0 where
  queued : Sent
  dropped : Sent  -- rsi_indicate_tx_status(..., -EINVAL)
  to_mgmt : Sent  -- rsi_send_mgmt_pkt
  to_data : Sent  -- rsi_send_data_pkt

-- `internal` is INTERNAL_MGMT_PKT in the packet's flags. The queue number is not checked.
unfoldable pub coex_send_pkt : Bool → Bool → SkBuff → ℕ → Coex → Sent × Coex
coex_send_pkt iface_down internal skb hal_queue s =
    if not (hal_queue == rsi_wlan_q)
    then (
      queued,
      record s {
        coex_tx_qs = update s.coex_tx_qs hal_queue (s.coex_tx_qs hal_queue ++ skb ∷ []);
        event = true;
      },
    )
    else (if iface_down && not internal
        then (dropped, s)
        else ((if skb.priority == mgmt_soft_q then to_mgmt else to_data), s))

pub data Received : Type 0 where
  card_ready : Received  -- rsi_handle_card_ready, after `hibernate_resume = false`
  sleep_notify : Received  -- rsi_mgmt_pkt_recv
  ignored : Received

-- COMMON_CARD_READY_IND is 0; `notify` is SLEEP_NOTIFY_IND.
unfoldable pub coex_recv_pkt : ℕ → List ℕ → Received
coex_recv_pkt notify msg =
    let t = get_or msg 2 0 in
    if t == 0 then card_ready else (if t == notify then sleep_notify else ignored)
