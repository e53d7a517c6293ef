-- ===== src/Tx/Process/Fifo.antt =====
-- The order of the packets of each queue, sent and waiting.
use si91x_rcp_driver.Prelude.{
  ℕ, ◌≡◌, ap, inl, inr, refl, Bool, true, false, some, List, [], ◌∷◌, ◌++◌, arith, ltb, ◌==◌,
  if◌then◌else◌, Option-cases,
}
use mathlib.Core.List.{append_assoc}
use si91x_rcp_driver.Tx.State.{mgmt_soft_q, Common, SkBuff}
use si91x_rcp_driver.Tx.Queue.{dequeue_pkt, skb_dequeue}
use si91x_rcp_driver.Tx.Process.{
  Call, check, wake, send, Lower, wake_if, wake_queues, Turn, break, again, clear_peer_notify,
  count_sent, transmit, serve,
}

-- The packets of queue `q` that were handed to the layers below, first one first.
abbrev pub sent_from : ℕ → List Call → List SkBuff
sent_from q [] = []
sent_from q (check _ ∷ tr) = sent_from q tr
sent_from q (wake _ ∷ tr) = sent_from q tr
sent_from q (send p skb ∷ tr) = sent_from q tr ++ (if p == q then skb ∷ [] else [])

-- What was sent from a queue, followed by what it still holds.
abbrev pub flow : ℕ → Common → List Call → List SkBuff
flow q c tr = sent_from q tr ++ c.tx_queue q

abbrev pub end_state : Turn → Common
end_state (break c tr) = c
end_state (again c tr) = c

abbrev pub end_trace : Turn → List Call
end_trace (break c tr) = tr
end_trace (again c tr) = tr

wake_if-sent :
    (l : Lower) (p : ℕ) (b : Bool) (tr : List Call) (q : ℕ)
    → sent_from q (wake_if l p b tr) ≡ sent_from q tr
unfolding wake_if
wake_if-sent l p b tr q = ground arith

wake_queues-sent :
    (l : Lower) (c : Common) (tr : List Call) (q : ℕ)
    → sent_from q (wake_queues l c tr) ≡ sent_from q tr
unfolding wake_queues
wake_queues-sent l c tr q = grind (arith, wake_if-sent)

clear_peer_notify-queue :
    (skb : SkBuff) (c : Common) → (clear_peer_notify skb c).tx_queue ≡ c.tx_queue
unfolding clear_peer_notify
clear_peer_notify-queue skb c = ground arith

-- A packet that was taken from the queue was its head.
pub dequeue_pkt-head :
    (c c₁ : Common) (p : ℕ) (skb : SkBuff) (q : ℕ)
    → dequeue_pkt c p ≡ some (skb, c₁)
    → (if p == q then skb ∷ [] else []) ++ c₁.tx_queue q ≡ c.tx_queue q
unfolding dequeue_pkt skb_dequeue
dequeue_pkt-head c c₁ p skb q h = ground arith

wakes-sent :
    (l : Lower) (c : Common) (b : Bool) (tr : List Call) (q : ℕ)
    → sent_from q (if b then wake_queues l c tr else tr) ≡ sent_from q tr
wakes-sent l c true tr q = wake_queues-sent l c tr q
wakes-sent l c false tr q = refl

transmit-flow :
    (l : Lower) (p : ℕ) (skb : SkBuff) (c : Common) (tr : List Call) (q : ℕ)
    → l.hw ≡ true
    → flow q (end_state (transmit l p skb c tr)) (end_trace (transmit l p skb c tr))
      ≡ sent_from q tr ++ ((if p == q then skb ∷ [] else []) ++ c.tx_queue q)
unfolding transmit count_sent
transmit-flow l p skb c tr q up = ground (
  arith,
  wakes-sent l c (ltb p mgmt_soft_q) tr q,
  clear_peer_notify-queue skb c,
  append_assoc (sent_from q tr) (if p == q then skb ∷ [] else []) (c.tx_queue q),
)

pub serve-flow :
    (l : Lower) (p : ℕ) (c : Common) (tr : List Call) (q : ℕ)
    → l.hw ≡ true
    → flow q (end_state (serve l p c tr)) (end_trace (serve l p c tr)) ≡ flow q c tr
unfolding serve
serve-flow l p c tr q up = elim (Option-cases (dequeue_pkt c p)) [
  | inl e ↦ simp e (ground arith)
  | inr ((skb, c₁), e) ↦ simp e (
      ground (
        arith,
        transmit-flow l p skb c₁ (check p ∷ tr) q up,
        ap (λ (x : List SkBuff). sent_from q tr ++ x) (dequeue_pkt-head c c₁ p skb q e),
      ))
]
