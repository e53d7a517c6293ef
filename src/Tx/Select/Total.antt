-- ===== src/Tx/Select/Total.antt =====
-- `rsi_core_determine_hal_queue` as a whole.
use si91x_rcp_driver.Prelude.{
  ℕ, zero, suc, ◌+◌, ◌-◌, ◌≤◌, ◌<◌, ◌≡◌, ◌∙◌, ◌⊎◌, inl, inr, refl, true, false, some, arith, ◌==◌,
  if◌then◌else◌, Bool-cases,
}
use si91x_rcp_driver.Tx.State.{
  mgmt_soft_q, mgmt_beacon_q, invalid_queue, Common, num_edca_queues, num_soft_queues, q_len,
  queued_from,
}
use si91x_rcp_driver.Tx.Select.{has_pkts, contend, take_queue, get_queue_num, determine_hal_queue}
use si91x_rcp_driver.Tx.Select.Frame.{contend-Frame}
use si91x_rcp_driver.Tx.Select.Chosen.{Picked, Idle, get_queue_num_lem}

-- A burst in progress has the packets that it was promised: `pkt_cnt` more from `selected_qnum`.
abbrev pub IsFair : Common → Type 0
IsFair c =
    (c.pkt_cnt ≡ 0) ⊎ ((c.selected_qnum < num_edca_queues) × (c.pkt_cnt ≤ q_len c c.selected_qnum))

-- What the caller gets: a queue with packets, or a reason for there being none to send.
abbrev pub Choice : Common → ℕ → Type 0
Choice c q =
    ((q < num_soft_queues) × (0 < q_len c q))
    ⊎ ((q ≡ invalid_queue)
        × (q_len c mgmt_soft_q ≡ 0)
        × (q_len c mgmt_beacon_q ≡ 0)
        × ((c.hw_data_qs_blocked ≡ true) ⊎ (queued_from c 0 num_soft_queues ≡ 0)))

-- The burst that `c` has left is backed by packets that stay when the head of queue `q` is sent.
abbrev pub IsReserved : Common → ℕ → Type 0
IsReserved c q =
    (c.pkt_cnt ≡ 0)
    ⊎ ((c.selected_qnum < num_edca_queues)
        × (c.pkt_cnt + (if q == c.selected_qnum then 1 else 0) ≤ q_len c c.selected_qnum))

Idle-Choice :
    {c c' : Common} {q : ℕ}
    → has_pkts c mgmt_soft_q ≡ false
    → has_pkts c mgmt_beacon_q ≡ false
    → Idle c q c'
    → Choice c q
Idle-Choice h k idle = inr (
  idle.invalid,
  ground arith,
  ground arith,
  inr (
      ground (
        arith,
        idle.empty 0 (omega arith),
        idle.empty 1 (omega arith),
        idle.empty 2 (omega arith),
        idle.empty 3 (omega arith),
      )),
)

searched_queues : {c c' : Common} {q : ℕ} → Picked c q c' ⊎ Idle c q c' → c'.tx_queue ≡ c.tx_queue
searched_queues (inl p) = p.queues
searched_queues (inr i) = i.queues

searched-Choice :
    {c c' : Common} {q : ℕ}
    → has_pkts c mgmt_soft_q ≡ false
    → has_pkts c mgmt_beacon_q ≡ false
    → Picked c q c' ⊎ Idle c q c'
    → Choice c q
searched-Choice h k (inl p) = inl (omega (arith, p.data_queue), p.nonempty)
searched-Choice h k (inr i) = Idle-Choice h k i

searched-IsReserved :
    {c c' : Common} {q : ℕ} → c.pkt_cnt ≡ 0 → Picked c q c' ⊎ Idle c q c' → IsReserved c' q
searched-IsReserved {c} {c'} {q} z (inl p) = inr (omega (arith, p.selected, p.data_queue), backed)
  where
    backed : c'.pkt_cnt + (if q == c'.selected_qnum then 1 else 0) ≤ q_len c' c'.selected_qnum
    backed = rw (p.queues, p.selected) (ground (arith, p.burst_left))
searched-IsReserved z (inr i) = inl (i.no_burst ∙ z)

-- From a state in which a burst in progress has its packets, `rsi_core_determine_hal_queue` always
-- returns: two passes over `get_queue_num:` are enough. It returns a queue that has packets, or
-- INVALID_QUEUE with both management queues empty and the data queues either blocked or empty. The
-- queues stay as they were, and what is left of a burst is backed by the packets behind the head of
-- the queue returned.
pub determine_hal_queue_total :
    (f : ℕ) (c : Common)
    → IsFair c
    → (q : ℕ) × (c' : Common) × (determine_hal_queue (suc (suc f)) c ≡ some (q, c'))
      × (c'.tx_queue ≡ c.tx_queue)
      × Choice c q
      × IsReserved c' q
unfolding determine_hal_queue
determine_hal_queue_total f c fair = elim (Bool-cases (has_pkts c mgmt_beacon_q)) [
  | inl b ↦ (mgmt_beacon_q, c, rw b refl, refl, inl (omega arith, ground arith), ground arith)
  | inr b ↦ elim (Bool-cases (has_pkts c mgmt_soft_q)) [
    | inl m ↦ (mgmt_soft_q, c, rw (b, m) refl, refl, inl (omega arith, ground arith), ground arith)
    | inr m ↦ elim (Bool-cases c.hw_data_qs_blocked) [
      | inl h ↦ (
        invalid_queue,
        c,
        simp (b, m, h) refl,
        refl,
        inr (refl, ground arith, ground arith, inl h),
        ground arith,
      )
      | inr h ↦ elim (Bool-cases (c.pkt_cnt == 0)) [
        | inl z ↦
            let (q, c', e, k) = get_queue_num_lem f c m (ground arith) in
            (
              q,
              c',
              simp (b, m, h, z) e,
              searched_queues k,
              searched-Choice m b k,
              searched-IsReserved (ground arith) k,
            )
        | inr z ↦ (
          c.selected_qnum,
          record c { pkt_cnt = c.pkt_cnt - 1 },
          simp (b, m, h, z) refl,
          refl,
          inl (ground arith),
          ground arith,
        )
      ]
    ]
  ]
]

get_queue_num-flags :
    (f : ℕ) (c : Common) (q : ℕ) (c' : Common)
    → get_queue_num f c ≡ some (q, c')
    → (c'.hw_data_qs_blocked ≡ c.hw_data_qs_blocked) × (c'.hibernate_resume ≡ c.hibernate_resume)
unfolding get_queue_num take_queue
get_queue_num-flags zero c q c' h = cc
get_queue_num-flags (suc f) c q c' h =
    ground (arith, contend-Frame c, get_queue_num-flags f (contend c).2 q c')

pub determine_hal_queue-flags :
    (f : ℕ) (c : Common) (q : ℕ) (c' : Common)
    → determine_hal_queue f c ≡ some (q, c')
    → (c'.hw_data_qs_blocked ≡ c.hw_data_qs_blocked) × (c'.hibernate_resume ≡ c.hibernate_resume)
unfolding determine_hal_queue
determine_hal_queue-flags f c q c' h = ground (arith, get_queue_num-flags f c q c')
