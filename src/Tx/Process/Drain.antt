-- ===== src/Tx/Process/Drain.antt =====
-- What one run of the transmit thread achieves.
use si91x_rcp_driver.Prelude.{
  ℕ, zero, suc, ◌<◌, ◌≡◌, ◌∙◌, ap, sym, inl, inr, refl, true, false, Option, some, List, [], ◌∷◌,
  ◌++◌, arith, ltb, if◌then◌else◌, update, Option-cases, length,
}
use mathlib.Core.List.{append-nil}
use si91x_rcp_driver.Tx.State.{mgmt_soft_q, invalid_queue, Common, SkBuff, num_soft_queues, q_len}
use si91x_rcp_driver.Tx.Queue.{dequeue_pkt, skb_dequeue}
use si91x_rcp_driver.Tx.Select.{determine_hal_queue}
use si91x_rcp_driver.Tx.Select.Total.{IsFair, determine_hal_queue_total, determine_hal_queue-flags}
use si91x_rcp_driver.Tx.Process.{
  Call, check, Lower, Turn, break, again, wake_queues, transmit, must_wait, serve, qos_processor,
}
use si91x_rcp_driver.Tx.Process.Fifo.{end_state, end_trace, sent_from, flow}
use si91x_rcp_driver.Tx.Process.Ends.{
  queued, goes_round, transmit-same, serve-IsFair, qos_processor-Ends,
}

-- Nothing below the driver holds a packet up.
pub record IsOpen (l : Lower) : Type 0 where
  pub up : l.hw ≡ true
  pub roomy : (tr : List Call) (q : ℕ) → l.room tr q ≡ true
  pub sends : (tr : List Call) (q : ℕ) (skb : SkBuff) → l.fails tr q skb ≡ false

transmit_open :
    (l : Lower) (p : ℕ) (skb : SkBuff) (c : Common) (tr : List Call)
    → IsOpen l
    → goes_round (transmit l p skb c tr) ≡ true
unfolding transmit
transmit_open l p skb c tr o =
    ground (arith, o.sends (if ltb p mgmt_soft_q then wake_queues l c tr else tr) p skb)

skb_dequeue-some :
    (xs : List SkBuff)
    → 0 < length xs
    → (skb : SkBuff) × (rest : List SkBuff) × (skb_dequeue xs ≡ some (skb, rest))
unfolding skb_dequeue
skb_dequeue-some [] h = elim h [ ]
skb_dequeue-some (x ∷ xs) h = (x, xs, refl)

dequeue_pkt-some :
    (c : Common) (p : ℕ)
    → p < num_soft_queues
    → 0 < q_len c p
    → (skb : SkBuff) × (c₁ : Common) × (dequeue_pkt c p ≡ some (skb, c₁))
unfolding dequeue_pkt
dequeue_pkt-some c p h k =
    let (skb, rest, e) = skb_dequeue-some (c.tx_queue p) k in
    (skb, record c { tx_queue = update c.tx_queue p rest }, ground arith)

serve_open :
    (l : Lower) (p : ℕ) (c : Common) (tr : List Call)
    → IsOpen l
    → c.hibernate_resume ≡ false
    → p < num_soft_queues
    → 0 < q_len c p
    → goes_round (serve l p c tr) ≡ true
unfolding serve must_wait
serve_open l p c tr o r h k =
    let (skb, c₁, e) = dequeue_pkt-some c p h k in
    simp e (ground (arith, transmit_open l p skb c₁ (check p ∷ tr) o, o.roomy tr p))

dequeue_pkt-flags :
    (c c₁ : Common) (p : ℕ) (skb : SkBuff)
    → dequeue_pkt c p ≡ some (skb, c₁)
    → (c₁.hw_data_qs_blocked ≡ c.hw_data_qs_blocked) × (c₁.hibernate_resume ≡ c.hibernate_resume)
unfolding dequeue_pkt
dequeue_pkt-flags c c₁ p skb h = ground arith

serve-flags :
    (l : Lower) (p : ℕ) (c : Common) (tr : List Call)
    → let c' = end_state (serve l p c tr) in
      (c'.hw_data_qs_blocked ≡ c.hw_data_qs_blocked) × (c'.hibernate_resume ≡ c.hibernate_resume)
unfolding serve
serve-flags l p c tr = elim (Option-cases (dequeue_pkt c p)) [
  | inl e ↦ simp e (ground arith)
  | inr ((skb, c₁), e) ↦
      simp e
        (ground (arith, transmit-same l p skb c₁ (check p ∷ tr), dequeue_pkt-flags c c₁ p skb e))
]

serve_invalid : (l : Lower) (c : Common) (tr : List Call) → serve l invalid_queue c tr ≡ break c tr
unfolding serve
serve_invalid l c tr = refl

-- The loop after a turn that goes round: it goes on from where the turn led.
goes_on :
    (f : ℕ) (l : Lower) (t : Turn) (c' : Common) (tr' : List Call)
    → goes_round t ≡ true
    → ◌≡◌ {A = Option (Common × List Call)}
        (elim t [ break c₂ tr₂ ↦ some (c₂, tr₂) | again c₂ tr₂ ↦ qos_processor f l c₂ tr₂ ])
        (some (c', tr'))
    → qos_processor f l (end_state t) (end_trace t) ≡ some (c', tr')
goes_on f l (break c tr) c' tr' g h = cc
goes_on f l (again c tr) c' tr' g h = h

stops :
    (f : ℕ) (l : Lower) (t : Turn) (c : Common) (tr : List Call) (c' : Common) (tr' : List Call)
    → t ≡ break c tr
    → ◌≡◌ {A = Option (Common × List Call)}
        (elim t [ break c₂ tr₂ ↦ some (c₂, tr₂) | again c₂ tr₂ ↦ qos_processor f l c₂ tr₂ ])
        (some (c', tr'))
    → c ≡ c'
stops f l (break a b) c tr c' tr' e h = cc
stops f l (again a b) c tr c' tr' e h = cc

-- When nothing holds a packet up the loop stops only with every queue empty.
drained :
    (f : ℕ) (l : Lower) (c : Common) (tr : List Call) (c' : Common) (tr' : List Call)
    → IsOpen l
    → IsFair c
    → c.hw_data_qs_blocked ≡ false
    → c.hibernate_resume ≡ false
    → qos_processor f l c tr ≡ some (c', tr')
    → queued c' ≡ 0
unfolding qos_processor
drained zero l c tr c' tr' o fair nb nr h = cc
drained (suc f) l c tr c' tr' o fair nb nr h =
    let (q, c₁, e, same, ch, res) = determine_hal_queue_total 0 c fair in
    let e₂ : determine_hal_queue 2 c ≡ some (q, c₁) = e in
    let (b₁, r₁) = determine_hal_queue-flags 2 c q c₁ e₂ in
    let h₁ = rw (e₂, qos_processor) at h in
    let same_len = λ (j : ℕ). ap (λ (x : ℕ → List SkBuff). length (x j)) same in
    elim ch [
      | inl (lt, pos) ↦
          let g = serve_open l q c₁ tr o (r₁ ∙ nr) lt (omega (arith, same_len q)) in
          let (b₂, r₂) = serve-flags l q c₁ tr in
          drained f l (end_state (serve l q c₁ tr)) (end_trace (serve l q c₁ tr)) c' tr' o
            (serve-IsFair l q c₁ tr res) (b₂ ∙ b₁ ∙ nb) (r₂ ∙ r₁ ∙ nr)
            (goes_on f l (serve l q c₁ tr) c' tr' g h₁)
      | inr (inv, m, b, inl bl) ↦ cc
      | inr (inv, m, b, inr z) ↦
          ap queued (
            sym (
              stops f l _ c₁ tr c' tr' (ap (λ (x : ℕ). serve l x c₁ tr) inv ∙ serve_invalid l c₁ tr)
                h₁))
          ∙ ap (λ (x : ℕ → List SkBuff). queued (record c { tx_queue = x })) same
          ∙ z
    ]

-- Started with the hardware present and with any burst in progress backed by packets, the transmit
-- loop ends, given one turn more than there are packets. It leaves bursts backed, and for each queue
-- what was sent from it, in order, followed by what it still holds, is what was sent before followed
-- by what it held at the start: no packet is lost, sent twice, or overtaken in its queue.
pub qos_processor_in_order :
    (f : ℕ) (l : Lower) (c : Common) (tr : List Call)
    → l.hw ≡ true
    → IsFair c
    → queued c < f
    → (c' : Common) × (tr' : List Call) × (qos_processor f l c tr ≡ some (c', tr'))
      × IsFair c'
      × ((q : ℕ) → sent_from q tr' ++ c'.tx_queue q ≡ sent_from q tr ++ c.tx_queue q)
qos_processor_in_order f l c tr up fair lt =
    let (c', tr', e, done) = qos_processor-Ends f l c tr up fair lt in
    (c', tr', e, done.fair, done.in_order)

nil_of_queued : (c : Common) (q : ℕ) → q < num_soft_queues → queued c ≡ 0 → c.tx_queue q ≡ []
nil_of_queued c q h z = nil_of_length (c.tx_queue q) (ground arith)
  where
    nil_of_length : (xs : List SkBuff) → length xs ≡ 0 → xs ≡ []
    nil_of_length [] e = refl
    nil_of_length (x ∷ xs) e = absurd (omega arith)

sent_all :
    (c c' : Common) (tr tr' : List Call)
    → ((q : ℕ) → flow q c' tr' ≡ flow q c tr)
    → queued c' ≡ 0
    → (q : ℕ) → q < num_soft_queues
    → sent_from q tr' ≡ flow q c tr
sent_all c c' tr tr' order z q h =
    sym (append-nil _)
    ∙ ap (λ (x : List SkBuff). sent_from q tr' ++ x) (sym (nil_of_queued c' q h z))
    ∙ order q

-- If also the layers below always have room and accept every packet, the data queues are not
-- blocked and the device is not resuming from hibernation, one run sends every packet of every
-- queue, each queue in its order, and leaves all queues empty.
pub qos_processor_drains :
    (f : ℕ) (l : Lower) (c : Common) (tr : List Call)
    → IsOpen l
    → IsFair c
    → c.hw_data_qs_blocked ≡ false
    → c.hibernate_resume ≡ false
    → queued c < f
    → (c' : Common) × (tr' : List Call) × (qos_processor f l c tr ≡ some (c', tr'))
      × (queued c' ≡ 0)
      × (sent_from 0 tr' ≡ sent_from 0 tr ++ c.tx_queue 0)
      × (sent_from 1 tr' ≡ sent_from 1 tr ++ c.tx_queue 1)
      × (sent_from 2 tr' ≡ sent_from 2 tr ++ c.tx_queue 2)
      × (sent_from 3 tr' ≡ sent_from 3 tr ++ c.tx_queue 3)
      × (sent_from 4 tr' ≡ sent_from 4 tr ++ c.tx_queue 4)
      × (sent_from 5 tr' ≡ sent_from 5 tr ++ c.tx_queue 5)
qos_processor_drains f l c tr o fair nb nr lt =
    let (c', tr', e, done) = qos_processor-Ends f l c tr o.up fair lt in
    let z = drained f l c tr c' tr' o fair nb nr e in
    let all_sent = sent_all c c' tr tr' done.in_order z in
    (
      c',
      tr',
      e,
      z,
      all_sent 0 (omega arith),
      all_sent 1 (omega arith),
      all_sent 2 (omega arith),
      all_sent 3 (omega arith),
      all_sent 4 (omega arith),
      all_sent 5 (omega arith),
    )
