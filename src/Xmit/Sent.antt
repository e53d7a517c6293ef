-- ===== src/Xmit/Sent.antt =====
-- `rsi_core_xmit` and then a run of the transmit thread, both of rsi/rsi_91x_core.c: from mac80211 to
-- the bus.
use si91x_rcp_driver.Prelude.{ℕ, ◌<◌, ◌≡◌, ◌⊎◌, some, List, [], ◌∷◌, ◌++◌}
use si91x_rcp_driver.Tx.State.{SkBuff, Common}
use si91x_rcp_driver.Tx.Process.{Call, Lower, qos_processor}
use si91x_rcp_driver.Tx.Process.Fifo.{sent_from}
use si91x_rcp_driver.Tx.Process.Ends.{queued}
use si91x_rcp_driver.Xmit.{Cfg, Xmit, Disposal}
use si91x_rcp_driver.Xmit.Queued.{Gives, Carries, Once}

-- What the bus has got of the packet with the frame `bs`: nothing, as it was given away, or the
-- frame behind its descriptor, after all that was sent or queued before it on its queue.
abbrev pub Arrives : Cfg → (bs : List ℕ) → Xmit → Xmit → List Call → List Call → Type 0
Arrives cfg bs x x' tr tr' =
    ((g : Disposal) × Gives bs g × (x'.disposals ≡ g ∷ x.disposals))
    ⊎ ((q : ℕ) × (skb : SkBuff) × (q < 6)
        × Carries cfg bs q skb
        × (sent_from q tr' ≡ (sent_from q tr ++ x.common.tx_queue q) ++ skb ∷ []))

-- A run of the transmit thread empties the queues and sends them in order.
abbrev Runs : ℕ → Lower → Common → List Call → Type 0
Runs f l c tr =
    (c' : Common) × (tr' : List Call) × (qos_processor f l c tr ≡ some (c', tr'))
    × (queued c' ≡ 0)
    × ((q : ℕ) → q < 6 → sent_from q tr' ≡ sent_from q tr ++ c.tx_queue q)
