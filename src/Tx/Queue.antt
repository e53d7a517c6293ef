-- ===== src/Tx/Queue.antt =====
-- `rsi_core_queue_pkt` and `rsi_core_dequeue_pkt` of rsi/rsi_91x_core.c. A `struct sk_buff_head` is
-- the list of its packets, first one first: `skb_queue_tail` appends, `skb_dequeue` takes the head.
use si91x_rcp_driver.Prelude.{
  ℕ, Option, none, some, List, [], ◌∷◌, ◌++◌, leb, if◌then◌else◌, update,
}
use si91x_rcp_driver.Tx.State.{num_soft_queues, SkBuff, Common}

-- The second part is the packet that was freed, if the queue number was out of range.
unfoldable pub queue_pkt : Common → SkBuff → Common × Option SkBuff
queue_pkt c skb = if leb num_soft_queues skb.priority then (c, some skb) else (
  record c { tx_queue = update c.tx_queue skb.priority (c.tx_queue skb.priority ++ skb ∷ []) },
  none,
)

unfoldable pub skb_dequeue : List SkBuff → Option (SkBuff × List SkBuff)
skb_dequeue [] = none
skb_dequeue (skb ∷ rest) = some (skb, rest)

-- `none` is the null pointer.
unfoldable pub dequeue_pkt : Common → ℕ → Option (SkBuff × Common)
dequeue_pkt c q = if leb num_soft_queues q then none else elim (skb_dequeue (c.tx_queue q)) [
  | none ↦ none
  | some (skb, rest) ↦ some (skb, record c { tx_queue = update c.tx_queue q rest })
]
