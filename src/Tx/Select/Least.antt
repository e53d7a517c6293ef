-- ===== src/Tx/Select/Least.antt =====
-- Which of the queues in contention is picked.
use si91x_rcp_driver.Prelude.{
  ℕ, zero, suc, ◌+◌, ◌-◌, ◌%◌, ◌^◌, ◌≤◌, ◌<◌, ◌≡◌, ◌∙◌, ap, ◌⊎◌, inl, true, arith, ℕ_discrete,
}
use si91x_rcp_driver.Tx.State.{Common, WmmQinfo, num_edca_queues}
use si91x_rcp_driver.Tx.Select.{
  has_pkts, min_weight_from, determine_min_weight_queue, back_off_round, least_back_off, contend,
}
use si91x_rcp_driver.Tx.Select.Frame.{min_weight_from-Frame, min_weight_from-qinfo}
use si91x_rcp_driver.Tx.Select.Ready.{ready, ready_of_same, min_weight_from-first}

abbrev weight : Common → ℕ → ℕ
weight c j = (c.tx_qinfo j).weight

-- The weights fit the `u8` that the least of them is kept in.
abbrev pub Narrow : Common → Type 0
Narrow c = (k : ℕ) → (c.tx_qinfo k).weight < 2 ^ 8

-- `q` is the best of the queues before `ii`, as far as queue `j` goes.
record Best (c : Common) (q ii j : ℕ) : Type 0 where
  takes_part : ready c q ≡ true
  kept : c.min_weight ≡ weight c q
  so_far : (ii ≤ j) ⊎ (weight c q ≤ weight c j)

back_off_round-Best :
    (ii q : ℕ) (c : Common) (j : ℕ)
    → Narrow c
    → ready c j ≡ true
    → Best c q ii j
    → let (q', c') = back_off_round ii (q, c) in
      Best c' q' (ii + 1) j × (c'.tx_qinfo ≡ c.tx_qinfo) × (c'.tx_queue ≡ c.tx_queue)
unfolding back_off_round
back_off_round-Best ii q c j narrow r b = elim (ℕ_discrete ii j) [
  | yes e ↦ ground (arith, narrow ii, b.takes_part, b.kept, b.so_far)
  | no ne ↦ ground (arith, narrow ii, b.takes_part, b.kept, b.so_far)
]

least_back_off-Best :
    (n ii q : ℕ) (c : Common) (j : ℕ)
    → Narrow c
    → ready c j ≡ true
    → j < ii + n
    → Best c q ii j
    → weight c (least_back_off n ii (q, c)).0 ≤ weight c j
unfolding least_back_off
least_back_off-Best zero ii q c j narrow r h b = ground (arith, b.so_far)
least_back_off-Best (suc n) ii q c j narrow r h b =
    let s = back_off_round ii (q, c) in
    let (b', e, e') = back_off_round-Best ii q c j narrow r b in
    let same = λ (k : ℕ). ap (λ (x : ℕ → WmmQinfo). (x k).weight) e in
    omega (
      arith,
      same j,
      same (least_back_off n (ii + 1) s).0,
      least_back_off-Best n (ii + 1) s.0 s.1 j (λ k. omega (arith, narrow k, same k))
          (ready_of_same c s.1 j e e' ∙ r) (omega arith) b',
    )

min_weight_from-kept :
    (n ii : ℕ) (c : Common)
    → (min_weight_from n ii c).0 < ii + n
    → (min_weight_from n ii c).1.min_weight ≡ weight c (min_weight_from n ii c).0 % 2 ^ 8
unfolding min_weight_from
min_weight_from-kept zero ii c h = absurd (omega arith)
min_weight_from-kept (suc n) ii c h = ground (arith, min_weight_from-kept n (ii + 1) c)

-- When the weights fit a byte, the queue that a pass picks weighs no more than any queue that takes
-- part in the contention, that is, any contended queue with packets.
pub contend-least :
    (c : Common) (j : ℕ)
    → Narrow c
    → j < num_edca_queues
    → (c.tx_qinfo j).pkt_contended ≡ true
    → has_pkts c j ≡ true
    → (c.tx_qinfo (contend c).0).weight ≤ (c.tx_qinfo j).weight
unfolding contend determine_min_weight_queue
contend-least c j narrow lt k p =
    let r : ready c j ≡ true = ground arith in
    let first : ℕ = (min_weight_from num_edca_queues 0 c).0 in
    let c₁ : Common = (min_weight_from num_edca_queues 0 c).1 in
    let (rf, le) = min_weight_from-first num_edca_queues 0 c j (omega arith) lt r in
    let e = min_weight_from-qinfo num_edca_queues 0 c in
    let e' = (min_weight_from-Frame num_edca_queues 0 c).queues in
    let same = λ (i : ℕ). ap (λ (x : ℕ → WmmQinfo). (x i).weight) e in
    let best : Best c₁ first first j = record {
      takes_part = ready_of_same c c₁ first e e' ∙ rf;
      kept =
          omega (
            arith,
            same first,
            narrow first,
            min_weight_from-kept num_edca_queues 0 c (omega arith),
          );
      so_far = inl le;
    } in
    omega (
      arith,
      same j,
      same (least_back_off (num_edca_queues - first) first (first, c₁)).0,
      least_back_off-Best (num_edca_queues - first) first first c₁ j
          (λ i. omega (arith, narrow i, same i)) (ready_of_same c c₁ j e e' ∙ r) (omega arith) best,
    )
