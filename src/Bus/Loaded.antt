-- ===== src/Bus/Loaded.antt =====
-- The loading of an image over SDIO (rsi/rsi_91x_sdio.c): what it leaves in the memory.
use si91x_rcp_driver.Prelude.{ℕ, ◌≡◌, List}
use si91x_rcp_driver.Bus.{Bus, Host}
use si91x_rcp_driver.Bus.Memory.{Mem, write_at}

-- The image stands behind the loading, and no write has failed.
abbrev pub Holds : ℕ → List ℕ → Mem → Host → Type 0
Holds base firmware m h = (h.write_fail ≡ 0) × (h.device.memory ≡ write_at base firmware m)
