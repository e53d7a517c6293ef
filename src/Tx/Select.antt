-- ===== src/Tx/Select.antt =====
-- The choice of the next queue in rsi/rsi_91x_core.c.
pub mod Frame
pub mod Ready
pub mod Recalculate
pub mod Chosen
pub mod Total
pub mod Least
use si91x_rcp_driver.Prelude.{
  ℕ, zero, suc, ◌+◌, ◌-◌, ◌*◌, ◌/◌, ◌%◌, ◌^◌, Bool, true, false, not, ◌&&◌, ◌||◌, Option, none,
  some, ltb, leb, ◌==◌, if◌then◌else◌, update,
}
use si91x_rcp_driver.Tx.State.{
  bk_q, be_q, vi_q, vo_q, mgmt_soft_q, mgmt_beacon_q, num_edca_queues, invalid_queue, WmmQinfo,
  EdcaParams, Common, q_len,
}

-- `skb_queue_len(...)` as a condition
abbrev pub has_pkts : Common → ℕ → Bool
has_pkts c i = ltb 0 (q_len c i)

-- The loop of `rsi_determine_min_weight_queue`, with `n` rounds left at index `ii`. The assignment
-- to the `u8` `min_weight` drops the high bits of the weight.
unfoldable pub min_weight_from : ℕ → ℕ → Common → ℕ × Common
min_weight_from zero ii c = (ii, c)
min_weight_from (suc n) ii c =
    let rest = min_weight_from n (ii + 1) c in
    if (c.tx_qinfo ii).pkt_contended && has_pkts c ii
    then (ii, record c { min_weight = (c.tx_qinfo ii).weight % 2 ^ 8 })
    else rest

unfoldable pub determine_min_weight_queue : Common → ℕ × Common
determine_min_weight_queue c = min_weight_from num_edca_queues 0 c

-- One round of `rsi_recalculate_weights`, for a queue with packets or without.
unfoldable pub recalculate_weight : Bool → ℕ → WmmQinfo → WmmQinfo
recalculate_weight has m w =
    if has
    then (if w.pkt_contended
        then record w { weight = if ltb m w.weight then w.weight - m else 0 }
        else record w { weight = w.wme_params; pkt_contended = true })
    else record w { weight = 0; pkt_contended = false }

-- The loop of `rsi_recalculate_weights`; the flag is `recontend_queue`.
unfoldable pub recalculate_from : ℕ → ℕ → Bool → Common → Bool × Common
recalculate_from zero ii re c = (re, c)
recalculate_from (suc n) ii re c =
    let w = c.tx_qinfo ii in
    recalculate_from n (ii + 1) (re || (has_pkts c ii && not w.pkt_contended)) (record c {
      tx_qinfo = update c.tx_qinfo ii (recalculate_weight (has_pkts c ii) c.min_weight w);
    })

unfoldable pub recalculate_weights : Common → Bool × Common
recalculate_weights c = recalculate_from num_edca_queues 0 false c

-- One round of "Selecting the queue with least back off".
unfoldable pub back_off_round : ℕ → ℕ × Common → ℕ × Common
back_off_round ii (q, c) =
    let w = c.tx_qinfo ii in
    if w.pkt_contended && ltb w.weight c.min_weight && has_pkts c ii
    then (ii, record c { min_weight = w.weight % 2 ^ 8 })
    else (q, c)

-- Its loop, from `ii` on with `n` rounds left.
unfoldable pub least_back_off : ℕ → ℕ → ℕ × Common → ℕ × Common
least_back_off zero ii s = s
least_back_off (suc n) ii s = least_back_off n (ii + 1) (back_off_round ii s)

-- `tx_qinfo[q_num].pkt_contended = 0`, guarded by `q_num < NUM_EDCA_QUEUES`
unfoldable pub clear_contended : ℕ → Common → Common
clear_contended q c =
    if ltb q num_edca_queues
    then record c {
      tx_qinfo = update c.tx_qinfo q (record (c.tx_qinfo q) { pkt_contended = false });
    }
    else c

-- One pass from `get_queue_num:` down to the test of `q_len`: the queue chosen, and
-- `recontend_queue`.
unfoldable pub contend : Common → ℕ × Bool × Common
contend c =
    let (first, c₁) = determine_min_weight_queue c in
    let (q, c₂) = least_back_off (num_edca_queues - first) first (first, c₁) in
    let (re, c₃) = recalculate_weights (clear_contended q c₂) in (q, re, c₃)

-- The number of packets that the chosen queue may send in a row, before it is cut to the length of
-- the queue. `txop` is a `u16`, so the shift does not leave `int`.
unfoldable pub burst : Common → ℕ → ℕ
burst c q =
    if q == vo_q
    then (if (c.edca_params q).acm then 1 else 6)
    else (if (c.edca_params q).acm
        then 1
        else (if ltb (c.edca_params be_q).aifs (c.edca_params vi_q).aifs
            then 2
            else (c.edca_params q).txop * 2 ^ 5 / 800))

-- The tail of `rsi_core_determine_hal_queue`, for a queue that has packets.
unfoldable pub take_queue : ℕ → Common → Common
take_queue q c =
    if (q == vo_q) || (q == vi_q)
    then (let b = burst c q in
        let cut = if leb (q_len c q) b then q_len c q else b in
        record c { selected_qnum = q; pkt_cnt = if not (cut == 0) then cut - 1 else 0 })
    else record c { selected_qnum = q }

-- From `get_queue_num:` on. The fuel bounds the jumps back; `none` means that it ran out.
unfoldable pub get_queue_num : ℕ → Common → Option (ℕ × Common)
get_queue_num zero c = none
get_queue_num (suc f) c =
    let (q, re, c') = contend c in
    let again = get_queue_num f c' in
    if has_pkts c' q
    then some (q, take_queue q c')
    else (if re then again else some (invalid_queue, c'))

unfoldable pub determine_hal_queue : ℕ → Common → Option (ℕ × Common)
determine_hal_queue fuel c =
    if has_pkts c mgmt_beacon_q
    then some (mgmt_beacon_q, c)
    else (if has_pkts c mgmt_soft_q
        then some (mgmt_soft_q, c)
        else (if c.hw_data_qs_blocked
            then some (invalid_queue, c)
            else (if not (c.pkt_cnt == 0)
                then some (c.selected_qnum, record c { pkt_cnt = c.pkt_cnt - 1 })
                else get_queue_num fuel c)))
