-- ===== src/Tx/Select/Ready.antt =====
-- Whether the queue that a round of contention picks has packets.
use si91x_rcp_driver.Prelude.{
  ℕ, zero, suc, ◌+◌, ◌-◌, ◌≤◌, ◌<◌, ◌≡◌, sym, ◌∙◌, ◌⊎◌, inl, refl, Bool, true, ◌&&◌, arith,
  ℕ_discrete,
}
use si91x_rcp_driver.Tx.State.{Common, num_edca_queues}
use si91x_rcp_driver.Tx.Select.{
  has_pkts, min_weight_from, determine_min_weight_queue, back_off_round, least_back_off, contend,
}
use si91x_rcp_driver.Tx.Select.Frame.{
  Frame, Frame-trans, min_weight_from-Frame, min_weight_from-qinfo, least_back_off-Frame,
}

and_right : (a b : Bool) → (a && b) ≡ true → b ≡ true
and_right a b h = ground arith

-- Queue `j` takes part in the contention.
abbrev pub ready : Common → ℕ → Bool
ready c j = (c.tx_qinfo j).pkt_contended && has_pkts c j

-- The loop stops at the first queue that takes part.
pub min_weight_from-first :
    (n ii : ℕ) (c : Common) (j : ℕ)
    → ii ≤ j
    → j < ii + n
    → ready c j ≡ true
    → (ready c (min_weight_from n ii c).0 ≡ true) × ((min_weight_from n ii c).0 ≤ j)
unfolding min_weight_from
min_weight_from-first zero ii c j lo hi r = absurd (omega arith)
min_weight_from-first (suc n) ii c j lo hi r = elim (ℕ_discrete ii j) [
  | yes e ↦ ground arith
  | no ne ↦ ground (arith, min_weight_from-first n (ii + 1) c j (omega arith) (omega arith) r)
]

pub min_weight_from-cases :
    (n ii : ℕ) (c : Common)
    → ((min_weight_from n ii c).0 ≡ ii + n)
      ⊎ ((ready c (min_weight_from n ii c).0 ≡ true) × ((min_weight_from n ii c).0 < ii + n))
unfolding min_weight_from
min_weight_from-cases zero ii c = inl (omega arith)
min_weight_from-cases (suc n) ii c = ground (arith, min_weight_from-cases n (ii + 1) c)

back_off_round-ready :
    (ii q : ℕ) (c : Common)
    → ready c q ≡ true
    → ii < num_edca_queues
    → q < num_edca_queues
    → let (q', c') = back_off_round ii (q, c) in (ready c' q' ≡ true) × (q' < num_edca_queues)
unfolding back_off_round
back_off_round-ready ii q c r h k = ground arith

pub least_back_off-ready :
    (n ii q : ℕ) (c : Common)
    → ready c q ≡ true
    → ii + n ≤ num_edca_queues
    → q < num_edca_queues
    → let (q', c') = least_back_off n ii (q, c) in (ready c' q' ≡ true) × (q' < num_edca_queues)
unfolding least_back_off
least_back_off-ready zero ii q c r h k = (r, k)
least_back_off-ready (suc n) ii q c r h k =
    let s = back_off_round-ready ii q c r (omega arith) k in
    least_back_off-ready n (ii + 1) _ _ s.0 (omega arith) s.1

pub ready_of_same :
    (c c' : Common) (q : ℕ)
    → c'.tx_qinfo ≡ c.tx_qinfo
    → c'.tx_queue ≡ c.tx_queue
    → ready c' q ≡ ready c q
ready_of_same c c' q h k = rw (h, k)

pub has_pkts_of_Frame : {c c' : Common} (q : ℕ) → Frame c c' → has_pkts c' q ≡ has_pkts c q
has_pkts_of_Frame q f = rw (f.queues)

-- With no queue that takes part, the number past the last is chosen.
pub contend_none :
    (c : Common)
    → (min_weight_from num_edca_queues 0 c).0 ≡ num_edca_queues
    → (contend c).0 ≡ num_edca_queues
unfolding contend determine_min_weight_queue least_back_off
contend_none c e = rw e refl

-- A queue that takes part is picked, or one that has waited for less.
pub contend_some :
    (c : Common)
    → ready c (min_weight_from num_edca_queues 0 c).0 ≡ true
    → (min_weight_from num_edca_queues 0 c).0 < num_edca_queues
    → (has_pkts c (contend c).0 ≡ true) × ((contend c).0 < num_edca_queues)
unfolding contend determine_min_weight_queue
contend_some c r h =
    let first : ℕ = (min_weight_from num_edca_queues 0 c).0 in
    let c₁ : Common = (min_weight_from num_edca_queues 0 c).1 in
    let fr = min_weight_from-Frame num_edca_queues 0 c in
    let r₁ = ready_of_same c c₁ first (min_weight_from-qinfo num_edca_queues 0 c) fr.queues ∙ r in
    let s = least_back_off-ready (num_edca_queues - first) first first c₁ r₁ (omega arith) h in
    let f₂ = least_back_off-Frame (num_edca_queues - first) first first c₁ in
    (sym (has_pkts_of_Frame _ (Frame-trans fr f₂)) ∙ and_right _ _ s.0, s.1)
