-- ===== src/Bus/Registers/Roundtrip.antt =====
-- A register that is written and read back over SDIO (rsi/rsi_91x_sdio.c).
use si91x_rcp_driver.Prelude.{ℕ, ◌≡◌, ◌⊎◌, List, ◌++◌, take, replicate}
use si91x_rcp_driver.Bus.{Bus}
use si91x_rcp_driver.Bus.Registers.{bytes_of, data_aligned}

abbrev pub Size : ℕ → Type 0
Size size = (size ≡ 1) ⊎ (size ≡ 2) ⊎ (size ≡ 4)

-- The four bytes that are sent.
abbrev pub sent : (value size : ℕ) → List ℕ
sent value size = take 4 (bytes_of 8 (data_aligned value size) ++ replicate 4 0)
