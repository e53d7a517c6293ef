-- ===== src/Tx/Process.antt =====
-- `rsi_core_qos_processor` of rsi/rsi_91x_core.c: one run of the transmit thread over the queues.
-- Locks, the log, the alignment of a buffer (which keeps its bytes) and `schedule()` are left out;
-- so are packets that other threads queue while it runs.
pub mod Fifo
pub mod Ends
pub mod Drain
use si91x_rcp_driver.Prelude.{
  ℕ, zero, suc, ◌+◌, ◌%◌, ◌^◌, ◌≡◌, Bool, true, false, not, ◌&&◌, ◌||◌, Option, none, some, List,
  [], ◌∷◌, ◌++◌, ltb, ◌==◌, if◌then◌else◌, update, get_or,
}
use si91x_rcp_driver.Tx.State.{
  bk_q, be_q, vi_q, vo_q, mgmt_soft_q, invalid_queue, SkBuff, Common, q_len,
}
use si91x_rcp_driver.Tx.Queue.{dequeue_pkt}
use si91x_rcp_driver.Tx.Select.{determine_hal_queue}

-- The access categories of mac80211; `WME_AC` names one for each data queue.
pub data Ac : Type 0 where
  bk be vi vo : Ac

unfoldable pub wme_ac : ℕ → Ac
wme_ac q = if q == bk_q then bk else (if q == be_q then be else (if q == vi_q then vi else vo))

-- A call to a layer below, as far as the layer can tell it from others.
pub data Call : Type 0 where
  check : ℕ → Call  -- check_hw_queue_status
  wake : Ac → Call  -- ieee80211_wake_queue
  send : ℕ → SkBuff → Call  -- rsi_send_mgmt_pkt, rsi_send_pkt or rsi_send_data_pkt

-- The layers below: what they answer, given the calls so far, last one first.
pub record Lower : Type 0 where
  pub room : List Call → ℕ → Bool  -- check_hw_queue_status(...) > 0
  pub stopped : List Call → Ac → Bool  -- ieee80211_queue_stopped
  pub fails : List Call → ℕ → SkBuff → Bool  -- a send that returns other than 0
  pub hw : Bool  -- adapter->hw is not null

abbrev pub peer_notify_frame : ℕ
peer_notify_frame = 0x8

-- `if (ieee80211_queue_stopped(...) && cond) ieee80211_wake_queue(...)`
unfoldable pub wake_if : Lower → ℕ → Bool → List Call → List Call
wake_if l q cond tr = if l.stopped tr (wme_ac q) && cond then wake (wme_ac q) ∷ tr else tr

-- The wake-ups after a data packet has left its queue. The second test of VI_Q takes the address of
-- `acm`, which is never null.
unfoldable pub wake_queues : Lower → Common → List Call → List Call
wake_queues l c tr =
    let tr₁ = wake_if l vo_q (ltb (q_len c vo_q) 100) tr in
    if q_len c vo_q == 0
    then (let vi_low =
          (not (c.edca_params vi_q).acm && ltb (q_len c vi_q) 150) || ltb (q_len c be_q) 25 in
        let tr₂ = wake_if l vi_q vi_low tr₁ in
        if ltb (q_len c vi_q) 5
        then (let tr₃ = wake_if l be_q (ltb (q_len c be_q) 25) tr₂ in
            if ltb (q_len c be_q) 15 then wake_if l bk_q (ltb (q_len c bk_q) 10) tr₃ else tr₃)
        else tr₂)
    else tr₁

-- One turn of `while (1)`: it breaks, or goes round again.
pub data Turn : Type 0 where
  break : Common → List Call → Turn
  again : Common → List Call → Turn

-- `if ((adapter->peer_notify) && (skb->data[2] == PEER_NOTIFY)) ...`
unfoldable pub clear_peer_notify : SkBuff → Common → Common
clear_peer_notify skb c =
    if c.peer_notify && (get_or skb.bytes 2 0 == peer_notify_frame)
    then record c { peer_notify = false }
    else c

unfoldable pub count_sent : ℕ → Common → Common
count_sent q c = record c {
  total_tx_pkt_send = update c.total_tx_pkt_send q ((c.total_tx_pkt_send q + 1) % 2 ^ 32);
}

-- From the dequeued packet to the end of the turn.
unfoldable pub transmit : Lower → ℕ → SkBuff → Common → List Call → Turn
transmit l q skb c tr =
    if ltb q mgmt_soft_q && not l.hw
    then break c tr
    else (let tr₁ = if ltb q mgmt_soft_q then wake_queues l c tr else tr in
        let c₁ = clear_peer_notify skb c in
        if l.fails tr₁ q skb
        then break c₁ (send q skb ∷ tr₁)
        else again (count_sent q c₁) (send q skb ∷ tr₁))

-- The device has no room, and the queue is one that has to wait for it.
unfoldable pub must_wait : Lower → ℕ → Common → List Call → Bool
must_wait l q c tr =
    not (l.room tr q) && (ltb q mgmt_soft_q || (not c.peer_notify && (q == mgmt_soft_q)))

-- The turn for the queue that was determined.
unfoldable pub serve : Lower → ℕ → Common → List Call → Turn
serve l q c tr =
    if (q == invalid_queue) || c.hibernate_resume
    then break c tr
    else (if must_wait l q c tr then break c (check q ∷ tr) else elim (dequeue_pkt c q) [
      | none ↦ break c (check q ∷ tr)
      | some (skb, c₁) ↦ transmit l q skb c₁ (check q ∷ tr)
    ])

-- The loop. The fuel bounds its turns; two passes are enough for each determination.
unfoldable pub qos_processor : ℕ → Lower → Common → List Call → Option (Common × List Call)
qos_processor zero l c tr = none
qos_processor (suc f) l c tr = elim (determine_hal_queue 2 c) [
  | none ↦ none
  | some (q, c₁) ↦ elim (serve l q c₁ tr) [
    | break c₂ tr₂ ↦ some (c₂, tr₂)
    | again c₂ tr₂ ↦ qos_processor f l c₂ tr₂
  ]
]
