-- ===== src/Tests/Sdio.antt =====
-- The buffer status with a device whose data buffer is full.
use si91x_rcp_driver.Prelude.{ℕ, ◌≡◌, ◌⊎◌, inl, refl, true, false, Option, some}
use si91x_rcp_driver.Sdio.{SdioDev, queue_full, check_buffer_status}
use si91x_rcp_driver.Sdio.Fresh.{check_buffer_status_lem}

abbrev idle : SdioDev
idle = record {
  buff_status_updated = false;
  mgmt_buffer_full = false;
  mgmt_buf_full_counter = 0;
  buffer_full = false;
  buf_full_counter = 0;
  semi_buffer_full = false;
  buf_semi_full_counter = 0;
  counter = 4;
  reads = 0;
}

abbrev full : ℕ → Option ℕ
full n = some 2

abbrev updated : SdioDev
updated = record idle { buff_status_updated = true }

full_and_updated :
    ((check_buffer_status full 0 updated).0 ≡ queue_full)
    × (((check_buffer_status full 0 updated).1.counter ≡ 1)
        ⊎ ((check_buffer_status full 0 updated).1.counter ≡ 4))
full_and_updated = check_buffer_status_lem full 0 2 updated refl (inl refl)
