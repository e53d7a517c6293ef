-- ===== src/Rx/Bounds.antt =====
-- Which bytes of the buffer `rsi_prepare_skb` (rsi/rsi_91x_main.c) copies.
use si91x_rcp_driver.Prelude.{ℕ, ◌+◌, ◌^◌, ◌<◌, ◌≡◌, some, List, leb, arith}
use si91x_rcp_driver.Rx.{Build, Env, Rx, Skb, prepare_skb}

module _ (build : Build) (env : Env) (bytes : List ℕ) where
  -- For a packet that `rsi_prepare_skb` returns for a length of 12 bits and an extended descriptor
  -- of 8 bits, the copied bytes end within the packet exactly when the extended descriptor is no
  -- longer than the packet.
  pub prepare_skb-bounds :
      (at pkt_len : ℕ) (s s' : Rx) (skb : Skb)
      → prepare_skb build env bytes at pkt_len s ≡ (some skb, s')
      → pkt_len < 2 ^ 12
      → s.extended_desc < 2 ^ 8
      → leb (skb.from + skb.len) (at + 16 + pkt_len) ≡ leb s.extended_desc pkt_len
  unfolding prepare_skb
  prepare_skb-bounds at pkt_len s s' skb e len ext = ground (arith, e, len, ext)
