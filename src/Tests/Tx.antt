-- ===== src/Tests/Tx.antt =====
-- The transmit scheduler on a state with three data packets and one management packet.
use si91x_rcp_driver.Prelude.{
  ℕ, zero, suc, ◌+◌, ◌≤◌, ◌≡◌, refl, inl, true, false, some, List, [], ◌∷◌, ◌++◌, arith,
}
use si91x_rcp_driver.Tx.State.{Common, SkBuff}
use si91x_rcp_driver.Tx.Select.{contend, determine_hal_queue}
use si91x_rcp_driver.Tx.Select.Total.{Choice, IsReserved, IsFair, determine_hal_queue_total}
use si91x_rcp_driver.Tx.Select.Least.{contend-least}
use si91x_rcp_driver.Tx.Process.{Call, Lower, qos_processor}
use si91x_rcp_driver.Tx.Process.Fifo.{sent_from}
use si91x_rcp_driver.Tx.Process.Ends.{queued}
use si91x_rcp_driver.Tx.Process.Drain.{qos_processor_in_order, qos_processor_drains}

abbrev frame : ℕ → ℕ → SkBuff
frame q n = record { priority = q; bytes = 0 ∷ 0 ∷ n ∷ [] }

abbrev queues : ℕ → List SkBuff
queues zero = []
queues (suc zero) = frame 1 10 ∷ []
queues (suc (suc zero)) = []
queues (suc (suc (suc zero))) = frame 3 20 ∷ frame 3 21 ∷ []
queues (suc (suc (suc (suc zero)))) = frame 4 30 ∷ []
queues _ = []

abbrev start : Common
start = record {
  tx_queue = queues;
  tx_qinfo = λ i. record { weight = 40; wme_params = 40 + i; pkt_contended = false };
  edca_params = λ i. record { txop = 0; cw_min = 3; aifs = 2; acm = false };
  min_weight = 0;
  pkt_cnt = 0;
  selected_qnum = 0;
  hw_data_qs_blocked = false;
  hibernate_resume = false;
  peer_notify = false;
  total_tx_pkt_send = λ i. 0;
}

-- The same, with every queue in contention and no management packet.
abbrev contended : Common
contended = record start {
  tx_qinfo = λ i. record { weight = 40; wme_params = 40; pkt_contended = true };
}

abbrev open_air : Lower
open_air = record {
  room = λ tr q. true;
  stopped = λ tr a. false;
  fails = λ tr q skb. false;
  hw = true;
}

first_is_management : determine_hal_queue 2 start ≡ some (4, start)
unfolding determine_hal_queue
first_is_management = refl

determine_hal_queue_total_example :
    (q : ℕ) × (c' : Common) × (determine_hal_queue 2 start ≡ some (q, c'))
    × (c'.tx_queue ≡ start.tx_queue)
    × Choice start q
    × IsReserved c' q
determine_hal_queue_total_example = determine_hal_queue_total 0 start (inl refl)

contend-least_example :
    (contended.tx_qinfo (contend contended).0).weight ≤ (contended.tx_qinfo 3).weight
contend-least_example = contend-least contended 3 (λ k. omega arith) (omega arith) refl refl

qos_processor_in_order_example :
    (c' : Common) × (tr' : List Call) × (qos_processor 5 open_air start [] ≡ some (c', tr'))
    × IsFair c'
    × ((q : ℕ) → sent_from q tr' ++ c'.tx_queue q ≡ start.tx_queue q)
qos_processor_in_order_example =
    qos_processor_in_order 5 open_air start [] refl (inl refl) (omega arith)

qos_processor_drains_example :
    (c' : Common) × (tr' : List Call) × (qos_processor 5 open_air start [] ≡ some (c', tr'))
    × (queued c' ≡ 0)
    × (sent_from 0 tr' ≡ [])
    × (sent_from 1 tr' ≡ frame 1 10 ∷ [])
    × (sent_from 2 tr' ≡ [])
    × (sent_from 3 tr' ≡ frame 3 20 ∷ frame 3 21 ∷ [])
    × (sent_from 4 tr' ≡ frame 4 30 ∷ [])
    × (sent_from 5 tr' ≡ [])
qos_processor_drains_example =
    qos_processor_drains 5 open_air start []
      (record { up = refl; roomy = λ tr q. refl; sends = λ tr q skb. refl }) (inl refl) refl refl
      (omega arith)
