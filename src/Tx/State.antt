-- ===== src/Tx/State.antt =====
-- The transmit state of `struct rsi_common` and `struct rsi_hw` (rsi/rsi_main.h).
use si91x_rcp_driver.Prelude.{ℕ, Bool, List, ◌+◌, length}

-- `enum edca_queue`, and the bounds of its arrays
abbrev pub bk_q : ℕ
bk_q = 0

abbrev pub be_q : ℕ
be_q = 1

abbrev pub vi_q : ℕ
vi_q = 2

abbrev pub vo_q : ℕ
vo_q = 3

abbrev pub mgmt_soft_q : ℕ
mgmt_soft_q = 4

abbrev pub mgmt_beacon_q : ℕ
mgmt_beacon_q = 5

abbrev pub num_edca_queues : ℕ
num_edca_queues = 4

abbrev pub num_soft_queues : ℕ
num_soft_queues = 6

abbrev pub invalid_queue : ℕ
invalid_queue = 0xff

-- `struct wmm_qinfo`. The weights are `s32`, never negative: they start as a `wme_params`, which is
-- a sum of unsigned terms, and only fall by a guarded subtraction. `pkt_contended` is 0 or 1.
pub record WmmQinfo : Type 0 where
  pub weight : ℕ
  pub wme_params : ℕ
  pub pkt_contended : Bool

-- What the driver reads of `struct ieee80211_tx_queue_params`.
pub record EdcaParams : Type 0 where
  pub txop : ℕ
  pub cw_min : ℕ
  pub aifs : ℕ
  pub acm : Bool

-- `struct sk_buff`: the bytes of the frame, and the queue number that travels with it.
pub record SkBuff : Type 0 where
  pub priority : ℕ
  pub bytes : List ℕ

-- `skb_queue_len(&common->tx_queue[i])` is the length of `tx_queue i`.
pub record Common : Type 0 where
  pub tx_queue : ℕ → List SkBuff
  pub tx_qinfo : ℕ → WmmQinfo
  pub edca_params : ℕ → EdcaParams
  pub min_weight : ℕ  -- u8
  pub pkt_cnt : ℕ  -- u32
  pub selected_qnum : ℕ
  pub hw_data_qs_blocked : Bool
  pub hibernate_resume : Bool
  pub peer_notify : Bool
  pub total_tx_pkt_send : ℕ → ℕ

abbrev pub q_len : Common → ℕ → ℕ
q_len c i = length (c.tx_queue i)

-- Packets in the `n` queues from number `i` on.
abbrev pub queued_from : Common → ℕ → ℕ → ℕ
queued_from c i ℕ.zero = 0
queued_from c i (ℕ.suc n) = q_len c i + queued_from c (i + 1) n
