-- ===== src/Sdio.antt =====
-- `rsi_sdio_check_buffer_status` and `rsi_sdio_determine_event_timeout` of rsi/rsi_91x_sdio_ops.c:
-- whether the device has room for a packet.
pub mod Fresh
use si91x_rcp_driver.Prelude.{
  ℕ, ◌+◌, ◌-◌, ◌/◌, ◌%◌, ◌^◌, Bool, true, false, not, ◌&&◌, ◌||◌, Option, none, some, ltb, ◌==◌,
  if◌then◌else◌,
}
use si91x_rcp_driver.Tx.State.{mgmt_soft_q}

-- `struct sdio_receive_info` and `buff_status_updated` of `struct rsi_91x_sdiodev`, with the static
-- `counter` of the check; `reads` counts the readings of the status register.
pub record SdioDev : Type 0 where
  pub buff_status_updated : Bool
  pub mgmt_buffer_full : Bool
  pub mgmt_buf_full_counter : ℕ
  pub buffer_full : Bool
  pub buf_full_counter : ℕ
  pub semi_buffer_full : Bool
  pub buf_semi_full_counter : ℕ
  pub counter : ℕ
  pub reads : ℕ

-- `failed` is -1.
pub data Status : Type 0 where
  queue_full : Status
  queue_not_full : Status
  failed : Status

-- `buf_status & BIT(n)`, with PKT_BUFF_SEMI_FULL 0, PKT_BUFF_FULL 1 and PKT_MGMT_BUFF_FULL 2.
abbrev pub has_bit : ℕ → ℕ → Bool
has_bit buf_status n = buf_status / 2 ^ n % 2 == 1

-- `if (!was_full) counter++`, where the bit is set; the counters are `u32`.
abbrev pub count_full : Bool → Bool → ℕ → ℕ
count_full set was_full n = if set && not was_full then (n + 1) % 2 ^ 32 else n

-- From the first test of `buf_status` to `out:`
unfoldable pub take_status : ℕ → SdioDev → SdioDev
take_status buf_status s = record s {
  mgmt_buf_full_counter =
      count_full (has_bit buf_status 2) s.mgmt_buffer_full s.mgmt_buf_full_counter;
  mgmt_buffer_full = has_bit buf_status 2;
  buf_full_counter = count_full (has_bit buf_status 1) s.buffer_full s.buf_full_counter;
  buffer_full = has_bit buf_status 1;
  buf_semi_full_counter =
      count_full (has_bit buf_status 0) s.semi_buffer_full s.buf_semi_full_counter;
  semi_buffer_full = has_bit buf_status 0;
  counter = if has_bit buf_status 0 then 1 else 4;
}

-- From `out:` on
unfoldable pub verdict : ℕ → SdioDev → Status
verdict q_num s =
    if ((q_num == mgmt_soft_q) && s.mgmt_buffer_full) || (ltb q_num mgmt_soft_q && s.buffer_full)
    then queue_full
    else queue_not_full

-- The register is `read`, which is `none` where `rsi_sdio_read_register` fails.
unfoldable pub read_status : (read : ℕ → Option ℕ) → ℕ → SdioDev → Status × SdioDev
read_status read q_num s =
    let s₁ = record s { buff_status_updated = false; reads = s.reads + 1 } in
    elim (read s.reads) [
      | none ↦ (failed, s₁)
      | some buf_status ↦ (verdict q_num (take_status buf_status s₁), take_status buf_status s₁)
    ]

unfoldable pub check_buffer_status : (read : ℕ → Option ℕ) → ℕ → SdioDev → Status × SdioDev
check_buffer_status read q_num s =
    if not s.buff_status_updated && not (s.counter == 0)
    then (verdict q_num s, record s { counter = s.counter - 1 })
    else read_status read q_num s

-- EVENT_WAIT_FOREVER is 0.
unfoldable pub determine_event_timeout : SdioDev → ℕ
determine_event_timeout s = if s.buffer_full then 2 else 0
