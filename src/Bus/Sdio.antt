-- ===== src/Bus/Sdio.antt =====
-- The register and block writes of rsi/rsi_91x_sdio.c and rsi/rsi_91x_sdio_ops.c, and the loading of
-- an image by them.
pub mod Steps
use Prim.Native.Nat.{bit_or}
use si91x_rcp_driver.Prelude.{
  ℕ, zero, suc, ◌+◌, ◌-◌, ◌*◌, ◌/◌, ◌%◌, ◌^◌, Bool, not, ◌&&◌, ◌||◌, List, ◌∷◌, ltb, leb, ◌==◌,
  if◌then◌else◌, length, take, drop, get_or,
}
use si91x_rcp_driver.Bus.{Device, Bus, Host, Result, ok, err, Call, ◌>>◌, store, transfer}

-- SDIO_MASTER_ACCESS_MSBYTE and SDIO_MASTER_ACCESS_LSBYTE, which hold the low and the high byte.
abbrev pub master_access_msbyte : ℕ
master_access_msbyte = 0xFA

abbrev pub master_access_lsbyte : ℕ
master_access_lsbyte = 0xFB

abbrev pub sd_request_master : ℕ
sd_request_master = 0x10000

abbrev pub frame_desc_sz : ℕ
frame_desc_sz = 16

-- A byte to a register of the slave.
unfoldable pub writeb : Bus → (function addr byte : ℕ) → Device → Device
writeb b function addr byte d =
    if function == 0 && addr == master_access_msbyte
    then record d { ms_low = byte }
    else if function == 0 && addr == master_access_lsbyte
    then record d { ms_high = byte }
    else b.register function addr byte d

-- A block to the slave: to the memory if its address has SD_REQUEST_MASTER, or as a packet.
unfoldable pub writesb : Bus → ℕ → List ℕ → Device → Device
writesb b addr bytes d =
    if leb sd_request_master addr
    then store b ((d.ms_low + d.ms_high * 2 ^ 8) * 2 ^ 16 + addr % 2 ^ 16) bytes d
    else record d { packets = (addr, bytes) ∷ d.packets }

module _ (b : Bus) where
  unfoldable pub rsi_sdio_write_register : (function addr byte : ℕ) → Call
  rsi_sdio_write_register function addr byte = transfer b (writeb b function addr byte)

  unfoldable pub rsi_sdio_master_access_msword : ℕ → Call
  rsi_sdio_master_access_msword ms_word =
      rsi_sdio_write_register 0 master_access_msbyte (ms_word % 2 ^ 8)
      >> rsi_sdio_write_register 0 master_access_lsbyte (ms_word / 2 ^ 8 % 2 ^ 8)

  -- From `sdio_claim_host` on. `prev_desc` is filled with what the buffer holds of its 16 bytes.
  unfoldable pub send_block : ℕ → List ℕ → ℕ → Call
  send_block addr buffer count h = elim (transfer b (writesb b addr (take count buffer)) h) [
    | ok h₁ ↦ ok (record h₁ { prev_desc = take frame_desc_sz buffer })
    | err h₁ ↦ err (record h₁ { write_fail = 2 })
  ]

  -- `count` is a `u16`.
  unfoldable pub rsi_sdio_write_register_multiple : ℕ → List ℕ → ℕ → Call
  rsi_sdio_write_register_multiple addr buffer count h =
      if ltb 1 h.write_fail
      then ok h
      else send_block addr buffer (count % 2 ^ 16)
          (if h.write_fail == 1 then record h { write_fail = 2 } else h)

  -- What follows the loop; `size` is that of the whole image.
  unfoldable pub load_rest : (block_size size base_address : ℕ) → List ℕ → Call
  load_rest block_size size base_address firmware h =
      if size % block_size == 0
      then ok h
      else rsi_sdio_write_register_multiple (bit_or (base_address % 2 ^ 16) sd_request_master)
          (take (size % block_size) firmware) (size % block_size) h

  -- `base_address += block_size`, and the upper half of the address where that has changed.
  abbrev pub next_base : (block_size base_address : ℕ) → ℕ
  next_base block_size base_address = (base_address + block_size) % 2 ^ 32

  unfoldable pub follow_msword : (base_address msb_address : ℕ) → Call
  follow_msword base_address msb_address h =
      if base_address / 2 ^ 16 == msb_address
      then ok h
      else rsi_sdio_master_access_msword ((msb_address + 1) % 2 ^ 16) h

  abbrev pub next_msb : (base_address msb_address : ℕ) → ℕ
  next_msb base_address msb_address =
      if base_address / 2 ^ 16 == msb_address then msb_address else (msb_address + 1) % 2 ^ 16

  -- The loop, with `left` blocks to go, and `firmware` from `offset` on.
  unfoldable pub load_blocks : (block_size size left base_address msb_address : ℕ) → List ℕ → Call
  load_blocks block_size size zero base_address msb_address firmware =
      load_rest block_size size base_address firmware
  load_blocks block_size size (suc left) base_address msb_address firmware =
      rsi_sdio_write_register_multiple (bit_or (base_address % 2 ^ 16) sd_request_master)
        (take block_size firmware) block_size
      >> follow_msword (next_base block_size base_address) msb_address
      >> load_blocks block_size size left (next_base block_size base_address)
          (next_msb (next_base block_size base_address) msb_address) (drop block_size firmware)

  -- `room` tells whether the buffer of a block could be allocated; `firmware` has the bytes to load.
  unfoldable pub rsi_sdio_load_data_master_write :
      (room : Bool) (base_address block_size : ℕ) → List ℕ → Call
  rsi_sdio_load_data_master_write room base_address block_size firmware h =
      if not room
      then err h
      else (rsi_sdio_master_access_msword (base_address / 2 ^ 16)
            >> load_blocks block_size (length firmware) (length firmware / block_size) base_address
                (base_address / 2 ^ 16) firmware)
          h
