-- ===== src/Tx/Select/Chosen.antt =====
-- What `rsi_core_determine_hal_queue` returns, and after how many passes over `get_queue_num:`.
use si91x_rcp_driver.Prelude.{
  ℕ, suc, ◌-◌, ◌<◌, ◌≡◌, ◌∙◌, sym, ap, ◌⊎◌, inl, inr, refl, Bool, true, false, ◌&&◌, some, arith,
  Bool-cases,
}
use si91x_rcp_driver.Tx.State.{mgmt_soft_q, invalid_queue, Common, num_edca_queues, q_len}
use si91x_rcp_driver.Tx.Select.{
  has_pkts, min_weight_from, determine_min_weight_queue, recalculate_weights, least_back_off,
  clear_contended, contend, take_queue, get_queue_num,
}
use si91x_rcp_driver.Tx.Select.Frame.{
  Frame, Frame-trans, min_weight_from-Frame, min_weight_from-qinfo, least_back_off-Frame,
  clear_contended-Frame, contend-Frame,
}
use si91x_rcp_driver.Tx.Select.Ready.{
  ready, min_weight_from-first, min_weight_from-cases, contend_none, contend_some,
  has_pkts_of_Frame,
}
use si91x_rcp_driver.Tx.Select.Recalculate.{
  recalculate_weights-contended, recalculate_weights-recontend, recalculate_weights-settled,
}

-- Either a pass picks a queue with packets, or no queue takes part and it stops past the last.
contend-cases :
    (c : Common)
    → ((has_pkts c (contend c).0 ≡ true) × ((contend c).0 < num_edca_queues))
      ⊎ (((min_weight_from num_edca_queues 0 c).0 ≡ num_edca_queues)
          × ((contend c).0 ≡ num_edca_queues))
contend-cases c = elim (min_weight_from-cases num_edca_queues 0 c) [
  | inl e ↦ inr (e, contend_none c e)
  | inr (r, h) ↦ inl (contend_some c r h)
]

-- A queue that takes part is found.
contend-ready :
    (c : Common) (j : ℕ)
    → j < num_edca_queues
    → ready c j ≡ true
    → (has_pkts c (contend c).0 ≡ true) × ((contend c).0 < num_edca_queues)
contend-ready c j h r =
    let (r', le) = min_weight_from-first num_edca_queues 0 c j (omega arith) h r in
    contend_some c r' (omega arith)

-- The state that `rsi_recalculate_weights` starts from in a pass.
cleared : Common → Common
cleared c =
    let s = determine_min_weight_queue c in
    let t = least_back_off (num_edca_queues - s.0) s.0 (s.0, s.1) in clear_contended t.0 t.1

cleared-Frame : (c : Common) → Frame c (cleared c)
unfolding cleared determine_min_weight_queue
cleared-Frame c =
    Frame-trans
      (Frame-trans (min_weight_from-Frame num_edca_queues 0 c) (least_back_off-Frame _ _ _ _))
      (clear_contended-Frame _ _)

contend_recalculates : (c : Common) → (contend c).1 ≡ (recalculate_weights (cleared c)).0
unfolding contend cleared
contend_recalculates c = refl

contend_state : (c : Common) → (contend c).2 ≡ (recalculate_weights (cleared c)).1
unfolding contend cleared
contend_state c = refl

-- With no queue that takes part the weights stay as they were until they are recalculated.
cleared_none :
    (c : Common)
    → (min_weight_from num_edca_queues 0 c).0 ≡ num_edca_queues
    → (cleared c).tx_qinfo ≡ c.tx_qinfo
unfolding cleared determine_min_weight_queue clear_contended least_back_off
cleared_none c e = rw e (min_weight_from-qinfo num_edca_queues 0 c)

and_intro : (a b : Bool) → a ≡ true → b ≡ true → (a && b) ≡ true
and_intro a b h k = ground arith

-- After a pass that asks for another, the next one picks a queue.
contend_again :
    (c : Common)
    → (contend c).1 ≡ true
    → let c' = (contend c).2 in
      (has_pkts c' (contend c').0 ≡ true) × ((contend c').0 < num_edca_queues)
contend_again c h =
    let (j, lt, p) = recalculate_weights-recontend (cleared c) (sym (contend_recalculates c) ∙ h) in
    let k = recalculate_weights-contended (cleared c) j lt p in
    let p' =
      has_pkts_of_Frame j (contend-Frame c) ∙ sym (has_pkts_of_Frame j (cleared-Frame c)) ∙ p in
    contend-ready (contend c).2 j lt
      (and_intro _ _ (ap (λ (d : Common). (d.tx_qinfo j).pkt_contended) (contend_state c) ∙ k) p')

-- A pass that picks none and asks for no other has seen every queue empty.
contend_idle :
    (c : Common)
    → (min_weight_from num_edca_queues 0 c).0 ≡ num_edca_queues
    → (contend c).1 ≡ false
    → (j : ℕ) → j < num_edca_queues
    → has_pkts c j ≡ false
contend_idle c e h j lt = elim (Bool-cases (has_pkts c j)) [
  | inr empty ↦ empty
  | inl p ↦
      let k =
        recalculate_weights-settled (cleared c) j (sym (contend_recalculates c) ∙ h) lt
          (has_pkts_of_Frame j (cleared-Frame c) ∙ p) in
      let r = and_intro _ _ (ap (λ f. (f j).pkt_contended) (sym (cleared_none c e)) ∙ k) p in
      let (r', le) = min_weight_from-first num_edca_queues 0 c j (omega arith) lt r in
      absurd (omega arith)
]

-- `q` was picked in `c`, and `c'` remembers how many more packets it may send at once.
pub record Picked (c : Common) (q : ℕ) (c' : Common) : Type 0 where
  pub data_queue : q < num_edca_queues
  pub nonempty : 0 < q_len c q
  pub queues : c'.tx_queue ≡ c.tx_queue
  pub selected : c'.selected_qnum ≡ q
  pub burst_left : c'.pkt_cnt < q_len c q

-- No data queue has packets.
pub record Idle (c : Common) (q : ℕ) (c' : Common) : Type 0 where
  pub invalid : q ≡ invalid_queue
  pub empty : (j : ℕ) → j < num_edca_queues → q_len c j ≡ 0
  pub queues : c'.tx_queue ≡ c.tx_queue
  pub no_burst : c'.pkt_cnt ≡ c.pkt_cnt

take_queue-Picked :
    (q : ℕ) (c : Common)
    → q < num_edca_queues
    → has_pkts c q ≡ true
    → c.pkt_cnt ≡ 0
    → Picked c q (take_queue q c)
unfolding take_queue
take_queue-Picked q c h p z = ground arith

Picked-of_Frame : {c c' c'' : Common} {q : ℕ} → Frame c c' → Picked c' q c'' → Picked c q c''
Picked-of_Frame {c} {c'} {c''} {q} f p = record {
  data_queue = p.data_queue;
  nonempty = rw f.queues at p.nonempty;
  queues = p.queues ∙ f.queues;
  selected = p.selected;
  burst_left = rw f.queues at p.burst_left;
}

get_queue_num_pick :
    (f : ℕ) (c : Common)
    → has_pkts c (contend c).0 ≡ true
    → (contend c).0 < num_edca_queues
    → c.pkt_cnt ≡ 0
    → (q : ℕ) × (c' : Common) × (get_queue_num (suc f) c ≡ some (q, c')) × Picked c q c'
unfolding get_queue_num
get_queue_num_pick f c p lt z =
    let fr = contend-Frame c in
    let p' = has_pkts_of_Frame (contend c).0 fr ∙ p in
    (
      (contend c).0,
      take_queue (contend c).0 (contend c).2,
      rw p' refl,
      Picked-of_Frame fr (take_queue-Picked _ _ lt p' (fr.cnt ∙ z)),
    )

-- Two passes end the search: it picks a queue with packets, or all data queues are empty.
pub get_queue_num_lem :
    (f : ℕ) (c : Common)
    → has_pkts c mgmt_soft_q ≡ false
    → c.pkt_cnt ≡ 0
    → (q : ℕ) × (c' : Common) × (get_queue_num (suc (suc f)) c ≡ some (q, c'))
      × (Picked c q c' ⊎ Idle c q c')
unfolding get_queue_num
get_queue_num_lem f c m z = elim (contend-cases c) [
  | inl (p, lt) ↦ let (q, c', e, k) = get_queue_num_pick (suc f) c p lt z in (q, c', e, inl k)
  | inr (e, e4) ↦
      let fr = contend-Frame c in
      let none_there : has_pkts (contend c).2 (contend c).0 ≡ false =
        ap (has_pkts (contend c).2) e4 ∙ has_pkts_of_Frame mgmt_soft_q fr ∙ m in
      elim (Bool-cases (contend c).1) [
        | inl re ↦
            let (p, lt) = contend_again c re in
            let (q, c', e', k) = get_queue_num_pick f (contend c).2 p lt (fr.cnt ∙ z) in
            (q, c', rw (none_there, re) e', inl (Picked-of_Frame fr k))
        | inr settled ↦ (
          invalid_queue,
          (contend c).2,
          rw (none_there, settled) refl,
          inr (record {
            invalid = refl;
            empty = λ j lt. ground (arith, contend_idle c e settled j lt);
            queues = fr.queues;
            no_burst = fr.cnt;
          }),
        )
      ]
]
