-- ===== src/Tx/Process/Ends.antt =====
-- The end of the transmit loop of rsi/rsi_91x_core.c, and the invariant of the burst.
use si91x_rcp_driver.Prelude.{
  ℕ, zero, suc, ◌+◌, ◌<◌, ◌≡◌, ◌∙◌, ap, inl, inr, refl, Bool, true, false, Option, some, List, ◌∷◌,
  arith, Option-cases,
}
use si91x_rcp_driver.Tx.State.{Common, SkBuff, num_soft_queues, queued_from}
use si91x_rcp_driver.Tx.Queue.{dequeue_pkt, skb_dequeue}
use si91x_rcp_driver.Tx.Select.{determine_hal_queue}
use si91x_rcp_driver.Tx.Select.Total.{IsFair, IsReserved, determine_hal_queue_total}
use si91x_rcp_driver.Tx.Process.{
  Call, check, Lower, Turn, break, again, clear_peer_notify, count_sent, transmit, serve,
  qos_processor,
}
use si91x_rcp_driver.Tx.Process.Fifo.{end_state, end_trace, flow, serve-flow}

abbrev pub queued : Common → ℕ
queued c = queued_from c 0 num_soft_queues

dequeue_pkt-queued :
    (c c₁ : Common) (p : ℕ) (skb : SkBuff)
    → dequeue_pkt c p ≡ some (skb, c₁)
    → queued c₁ + 1 ≡ queued c
unfolding dequeue_pkt skb_dequeue
dequeue_pkt-queued c c₁ p skb h = ground arith

dequeue_pkt-IsFair :
    (c c₁ : Common) (p : ℕ) (skb : SkBuff)
    → IsReserved c p
    → dequeue_pkt c p ≡ some (skb, c₁)
    → IsFair c₁
unfolding dequeue_pkt skb_dequeue
dequeue_pkt-IsFair c c₁ p skb r h = ground arith

-- A turn leaves the queues and the burst as the dequeuing did.
pub transmit-same :
    (l : Lower) (p : ℕ) (skb : SkBuff) (c : Common) (tr : List Call)
    → let c' = end_state (transmit l p skb c tr) in
      (c'.tx_queue ≡ c.tx_queue)
      × (c'.pkt_cnt ≡ c.pkt_cnt)
      × (c'.selected_qnum ≡ c.selected_qnum)
      × (c'.hw_data_qs_blocked ≡ c.hw_data_qs_blocked)
      × (c'.hibernate_resume ≡ c.hibernate_resume)
unfolding transmit count_sent clear_peer_notify
transmit-same l p skb c tr = ground arith

abbrev pub goes_round : Turn → Bool
goes_round (break c tr) = false
goes_round (again c tr) = true

pub serve-IsFair :
    (l : Lower) (p : ℕ) (c : Common) (tr : List Call)
    → IsReserved c p
    → IsFair (end_state (serve l p c tr))
unfolding serve
serve-IsFair l p c tr r = elim (Option-cases (dequeue_pkt c p)) [
  | inl e ↦ simp e (ground arith)
  | inr ((skb, c₁), e) ↦
      simp e
        (ground (arith, transmit-same l p skb c₁ (check p ∷ tr), dequeue_pkt-IsFair c c₁ p skb r e))
]

serve-queued :
    (l : Lower) (p : ℕ) (c : Common) (tr : List Call)
    → goes_round (serve l p c tr) ≡ true
    → queued (end_state (serve l p c tr)) + 1 ≡ queued c
unfolding serve
serve-queued l p c tr h = elim (Option-cases (dequeue_pkt c p)) [
  | inl e ↦ ground arith
  | inr ((skb, c₁), e) ↦
      ground (arith, transmit-same l p skb c₁ (check p ∷ tr), dequeue_pkt-queued c c₁ p skb e)
]

-- How the loop ends, started at `c` with the calls `tr` made before.
pub record Ends (l : Lower) (c : Common) (tr : List Call) (c' : Common) (tr' : List Call)
    : Type 0 where
  pub fair : IsFair c'
  pub in_order : (q : ℕ) → flow q c' tr' ≡ flow q c tr

-- The loop after one turn, given that it ends from wherever the turn leads.
turn :
    (f : ℕ) (l : Lower) (c : Common) (tr : List Call) (t : Turn)
    → IsFair (end_state t)
    → ((q : ℕ) → flow q (end_state t) (end_trace t) ≡ flow q c tr)
    → (goes_round t ≡ true → queued (end_state t) < f)
    → ((c₂ : Common) (tr₂ : List Call)
        → IsFair c₂
        → queued c₂ < f
        → (c' : Common) × (tr' : List Call) × (qos_processor f l c₂ tr₂ ≡ some (c', tr'))
          × Ends l c₂ tr₂ c' tr')
    → (c' : Common) × (tr' : List Call) × ◌≡◌ {A = Option (Common × List Call)}
        (elim t [ break c₂ tr₂ ↦ some (c₂, tr₂) | again c₂ tr₂ ↦ qos_processor f l c₂ tr₂ ])
        (some (c', tr'))
      × Ends l c tr c' tr'
turn f l c tr (break c₂ tr₂) fair fl lt go = (c₂, tr₂, refl, record { fair = fair; in_order = fl })
turn f l c tr (again c₂ tr₂) fair fl lt go =
    let (c', tr', e, done) = go c₂ tr₂ fair (lt refl) in
    (c', tr', e, record { fair = done.fair; in_order = λ q. done.in_order q ∙ fl q })

pub qos_processor-Ends :
    (f : ℕ) (l : Lower) (c : Common) (tr : List Call)
    → l.hw ≡ true
    → IsFair c
    → queued c < f
    → (c' : Common) × (tr' : List Call) × (qos_processor f l c tr ≡ some (c', tr'))
      × Ends l c tr c' tr'
unfolding qos_processor
qos_processor-Ends zero l c tr up fair lt = elim lt [ ]
qos_processor-Ends (suc f) l c tr up fair lt =
    let (q, c₁, e, same, ch, res) = determine_hal_queue_total 0 c fair in
    let e₂ : determine_hal_queue 2 c ≡ some (q, c₁) = e in
    let same_flow =
      λ (p : ℕ). ap (λ (x : ℕ → List SkBuff). flow p (record c { tx_queue = x }) tr) same in
    let (c', tr', e', done) =
      turn f l c₁ tr (serve l q c₁ tr) (serve-IsFair l q c₁ tr res) (λ p. serve-flow l q c₁ tr p up)
        (λ h. omega (
          arith,
          serve-queued l q c₁ tr h,
          ap (λ (x : ℕ → List SkBuff). queued (record c { tx_queue = x })) same,
        ))
        (λ c₂ tr₂ fair₂ lt₂. qos_processor-Ends f l c₂ tr₂ up fair₂ lt₂) in
    (
      c',
      tr',
      rw (e₂, qos_processor) e',
      record { fair = done.fair; in_order = λ p. done.in_order p ∙ same_flow p },
    )
