-- ===== src/Tx/Select/Frame.antt =====
-- What the choice of a queue leaves alone: all but the weights and `min_weight`.
use si91x_rcp_driver.Prelude.{ℕ, zero, suc, ◌+◌, ◌≡◌, refl, Bool, false, arith}
use si91x_rcp_driver.Tx.State.{Common, num_edca_queues}
use si91x_rcp_driver.Tx.Select.{
  min_weight_from, determine_min_weight_queue, recalculate_from, recalculate_weights,
  back_off_round, least_back_off, clear_contended, contend,
}

pub record Frame (c c' : Common) : Type 0 where
  pub queues : c'.tx_queue ≡ c.tx_queue
  pub edca : c'.edca_params ≡ c.edca_params
  pub cnt : c'.pkt_cnt ≡ c.pkt_cnt
  pub selected : c'.selected_qnum ≡ c.selected_qnum
  pub blocked : c'.hw_data_qs_blocked ≡ c.hw_data_qs_blocked
  pub resume : c'.hibernate_resume ≡ c.hibernate_resume
  pub notify : c'.peer_notify ≡ c.peer_notify
  pub sent : c'.total_tx_pkt_send ≡ c.total_tx_pkt_send

pub Frame-refl : (c : Common) → Frame c c
Frame-refl c = ground arith

pub Frame-trans : {a b c : Common} → Frame a b → Frame b c → Frame a c
Frame-trans f g = ground arith

pub min_weight_from-Frame : (n ii : ℕ) (c : Common) → Frame c (min_weight_from n ii c).1
unfolding min_weight_from
min_weight_from-Frame zero ii c = Frame-refl c
min_weight_from-Frame (suc n) ii c = ground (arith, min_weight_from-Frame n (ii + 1) c)

pub min_weight_from-qinfo :
    (n ii : ℕ) (c : Common) → (min_weight_from n ii c).1.tx_qinfo ≡ c.tx_qinfo
unfolding min_weight_from
min_weight_from-qinfo zero ii c = refl
min_weight_from-qinfo (suc n) ii c = ground (arith, min_weight_from-qinfo n (ii + 1) c)

back_off_round-Frame : (ii q : ℕ) (c : Common) → Frame c (back_off_round ii (q, c)).1
unfolding back_off_round
back_off_round-Frame ii q c = ground arith

pub least_back_off-Frame : (n ii q : ℕ) (c : Common) → Frame c (least_back_off n ii (q, c)).1
unfolding least_back_off
least_back_off-Frame zero ii q c = Frame-refl c
least_back_off-Frame (suc n) ii q c =
    Frame-trans (back_off_round-Frame ii q c) (least_back_off-Frame n (ii + 1) _ _)

pub recalculate_from-Frame :
    (n ii : ℕ) (re : Bool) (c : Common) → Frame c (recalculate_from n ii re c).1
unfolding recalculate_from
recalculate_from-Frame zero ii re c = Frame-refl c
recalculate_from-Frame (suc n) ii re c =
    Frame-trans (ground arith) (recalculate_from-Frame n (ii + 1) _ _)

pub clear_contended-Frame : (q : ℕ) (c : Common) → Frame c (clear_contended q c)
unfolding clear_contended
clear_contended-Frame q c = ground arith

pub contend-Frame : (c : Common) → Frame c (contend c).2
unfolding contend determine_min_weight_queue recalculate_weights
contend-Frame c =
    Frame-trans
      (Frame-trans (min_weight_from-Frame num_edca_queues 0 c) (least_back_off-Frame _ _ _ _))
      (Frame-trans (clear_contended-Frame _ _) (recalculate_from-Frame num_edca_queues 0 false _))
