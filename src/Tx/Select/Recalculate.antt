-- ===== src/Tx/Select/Recalculate.antt =====
-- `rsi_recalculate_weights`, queue by queue, and what its result says.
use si91x_rcp_driver.Prelude.{
  ℕ, zero, suc, ◌+◌, ◌≤◌, ◌<◌, ◌≡◌, ◌∙◌, ◌⊎◌, inl, inr, refl, Bool, true, false, ◌&&◌, ◌||◌, arith,
  ltb, leb, if◌then◌else◌, ℕ_discrete,
}
use si91x_rcp_driver.Tx.State.{Common, num_edca_queues}
use si91x_rcp_driver.Tx.Select.{has_pkts, recalculate_weight, recalculate_from, recalculate_weights}

recalculate_from-qinfo :
    (n ii : ℕ) (re : Bool) (c : Common) (j : ℕ)
    → (recalculate_from n ii re c).1.tx_qinfo j ≡ (
        if leb ii j && ltb j (ii + n)
        then recalculate_weight (has_pkts c j) c.min_weight (c.tx_qinfo j)
        else c.tx_qinfo j)
unfolding recalculate_from
recalculate_from-qinfo zero ii re c j = ground arith
recalculate_from-qinfo (suc n) ii re c j = recalculate_from-qinfo n (ii + 1) _ _ j ∙ ground arith

recalculate_from-recontend :
    (n ii : ℕ) (re : Bool) (c : Common)
    → (recalculate_from n ii re c).0 ≡ true
    → (re ≡ true) ⊎ ((j : ℕ) × (ii ≤ j) × (j < ii + n) × (has_pkts c j ≡ true))
unfolding recalculate_from
recalculate_from-recontend zero ii re c h = inl h
recalculate_from-recontend (suc n) ii re c h = elim (recalculate_from-recontend n (ii + 1) _ _ h) [
  | inl e ↦ first re (has_pkts c ii) _ refl e
  | inr (j, lo, hi, p) ↦ inr (j, omega arith, omega arith, p)
]
  where
    first :
        (a b d : Bool)
        → has_pkts c ii ≡ b
        → (a || (b && d)) ≡ true
        → (a ≡ true) ⊎ ((j : ℕ) × (ii ≤ j) × (j < ii + suc n) × (has_pkts c j ≡ true))
    first true b d e h = inl refl
    first false true d e h = inr (ii, omega arith, omega arith, e)
    first false false d e h = cc

recalculate_from-settled :
    (n ii : ℕ) (re : Bool) (c : Common)
    → (recalculate_from n ii re c).0 ≡ false
    → (re ≡ false)
      × ((j : ℕ) → ii ≤ j → j < ii + n → has_pkts c j ≡ true → (c.tx_qinfo j).pkt_contended ≡ true)
unfolding recalculate_from
recalculate_from-settled zero ii re c h = (h, λ j lo hi p. absurd (omega arith))
recalculate_from-settled (suc n) ii re c h =
    let (e, later) = recalculate_from-settled n (ii + 1) _ _ h in
    (
      ground arith,
      λ j lo hi p. elim (ℕ_discrete ii j) [
        | yes same ↦ ground arith
        | no ne ↦ ground (arith, later j (omega arith) (omega arith) p)
      ],
    )

-- After the recalculation every queue with packets takes part.
pub recalculate_weights-contended :
    (c : Common) (j : ℕ)
    → j < num_edca_queues
    → has_pkts c j ≡ true
    → ((recalculate_weights c).1.tx_qinfo j).pkt_contended ≡ true
unfolding recalculate_weights recalculate_weight
recalculate_weights-contended c j h p =
    ground (arith, recalculate_from-qinfo num_edca_queues 0 false c j)

-- It asks for another round only if some queue has packets.
pub recalculate_weights-recontend :
    (c : Common)
    → (recalculate_weights c).0 ≡ true
    → (j : ℕ) × (j < num_edca_queues) × (has_pkts c j ≡ true)
unfolding recalculate_weights
recalculate_weights-recontend c h = elim (recalculate_from-recontend num_edca_queues 0 false c h) [
  | inl e ↦ cc
  | inr (j, lo, hi, p) ↦ (j, hi, p)
]

-- If it asks for none, every queue with packets took part already.
pub recalculate_weights-settled :
    (c : Common) (j : ℕ)
    → (recalculate_weights c).0 ≡ false
    → j < num_edca_queues
    → has_pkts c j ≡ true
    → (c.tx_qinfo j).pkt_contended ≡ true
unfolding recalculate_weights
recalculate_weights-settled c j e h p =
    (recalculate_from-settled num_edca_queues 0 false c e).1 j (omega arith) h p
