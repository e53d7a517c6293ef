-- ===== src/Tests/Coex.antt =====
-- The coexistence scheduler with two Bluetooth packets.
use si91x_rcp_driver.Prelude.{ℕ, ◌≡◌, refl, true, false, some, [], ◌∷◌, arith, if◌then◌else◌, ◌==◌}
use si91x_rcp_driver.Tx.State.{SkBuff}
use si91x_rcp_driver.Coex.{bt, Coex, done, sched_tx_pkts}
use si91x_rcp_driver.Coex.Schedule.{OnlyBt, sched_tx_pkts-drains}

abbrev frame : ℕ → SkBuff
frame n = record { priority = 0; bytes = n ∷ [] }

abbrev two_bt : Coex
two_bt = record {
  coex_tx_qs = λ q. if q == 1 then frame 1 ∷ frame 2 ∷ [] else [];
  zb_ready = false;
  sent = [];
  event = false;
}

two_bt-OnlyBt : OnlyBt two_bt
two_bt-OnlyBt = record { coex_empty = refl; wlan_empty = refl; vip_empty = refl; zigb_empty = refl }

sched_tx_pkts-drains_example :
    (t : Coex) × (sched_tx_pkts 3 true two_bt ≡ some (done t))
    × (t.sent ≡ (bt, frame 1) ∷ (bt, frame 2) ∷ [])
    × (t.coex_tx_qs 1 ≡ [])
    × OnlyBt t
sched_tx_pkts-drains_example = sched_tx_pkts-drains 3 true two_bt two_bt-OnlyBt (omega arith)
