-- ===== src/Beacon/Spin.antt =====
-- Beacons of more than 255 bytes in the loop of `rsi_prepare_beacon` (rsi/rsi_91x_hal.c).
use si91x_rcp_driver.Prelude.{ℕ, zero, suc, ◌+◌, ◌%◌, ◌^◌, ◌≤◌, ◌<◌, ◌≡◌, ◌≢◌, refl, none, arith}
use si91x_rcp_driver.Rx.{byte}
use si91x_rcp_driver.Beacon.{Beacon, strip_one, strip}

-- A beacon of at least 256 bytes that has no 7 among the first 256 keeps the loop going for ever: the
-- index has eight bits and never comes to the end.
pub strip-spins :
    (f : ℕ) (b : Beacon)
    → 256 ≤ b.len
    → b.index < 256
    → ((i : ℕ) → i < 256 → byte b.buffer i ≢ 7)
    → strip f b ≡ none
unfolding strip strip_one
strip-spins zero b long lt none_there = refl
strip-spins (suc f) b long lt none_there =
    let next : Beacon = record b {
      index = (b.index + (2 + byte b.buffer (b.index + 1))) % 2 ^ 8;
    } in
    ground
      (arith, long, lt, none_there b.index lt, strip-spins f next long (omega arith) none_there)
