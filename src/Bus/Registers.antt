-- ===== src/Bus/Registers.antt =====
-- Registers of the device through its memory, over SDIO: `rsi_sdio_master_reg_read` and
-- `rsi_sdio_master_reg_write` of rsi/rsi_91x_sdio.c.
pub mod Lanes
pub mod Roundtrip
use Prim.Native.Nat.{bit_or}
use si91x_rcp_driver.Prelude.{
  ℕ, zero, suc, ◌+◌, ◌-◌, ◌*◌, ◌/◌, ◌%◌, ◌^◌, Bool, not, ◌||◌, List, [], ◌∷◌, ◌++◌, ltb, ◌==◌,
  if◌then◌else◌, replicate,
}
use si91x_rcp_driver.Bus.{Device, Bus, Host, Result, ok, err, Call, ◌>>◌}
use si91x_rcp_driver.Bus.Sdio.{
  rsi_sdio_master_access_msword, rsi_sdio_write_register_multiple, sd_request_master,
}

-- A value that was read, or an error.
pub data Read : Type 0 where
  got : ℕ → Host → Read
  failed : Host → Read

-- `count` bytes of the memory, little-endian.
unfoldable pub little_endian : (memory : ℕ → ℕ) → ℕ → (count : ℕ) → ℕ
little_endian memory a zero = 0
little_endian memory a (suc n) = memory a % 2 ^ 8 + 2 ^ 8 * little_endian memory (a + 1) n

-- The lowest `count` bytes of a number, the lowest first.
unfoldable pub bytes_of : (count value : ℕ) → List ℕ
bytes_of zero value = []
bytes_of (suc n) value = value % 2 ^ 8 ∷ bytes_of n (value / 2 ^ 8)

-- One byte of a block that is read at an address with SD_REQUEST_MASTER.
unfoldable pub fetch : Bus → (addr i : ℕ) → Device → ℕ
fetch b addr i d =
    if ltb (addr % 2 ^ 16 + i) (2 ^ 16)
    then d.memory ((d.ms_low + d.ms_high * 2 ^ 8) * 2 ^ 16 + addr % 2 ^ 16 + i) % 2 ^ 8
    else b.beyond (addr + i) d

-- The first word of a block.
unfoldable pub first_word : Bus → (addr : ℕ) → Device → ℕ
first_word b addr d =
    fetch b addr 0 d
    + fetch b addr 1 d * 2 ^ 8
    + fetch b addr 2 d * 2 ^ 16
    + fetch b addr 3 d * 2 ^ 24

-- The part of the word for `size` bytes at `addr`.
unfoldable pub sub_word : (addr size word : ℕ) → ℕ
sub_word addr size word =
    if size == 2
    then (if addr % 4 == 0 then word else word / 2 ^ 16) % 2 ^ 16
    else if size == 1
    then (if addr % 4 == 0
        then word
        else if addr % 4 == 1
        then word / 2 ^ 8
        else if addr % 4 == 2
        then word / 2 ^ 16
        else word / 2 ^ 24)
      % 2 ^ 8
    else word

-- `addr_on_bus`, for an `addr` that is cut to 16 bits; FLASH_SIZE_ADDR is 0x04000016.
unfoldable pub on_bus : ℕ → ℕ
on_bus addr =
    let top = addr / 2 ^ 24 * 2 ^ 24 in if top == 0x04000000 || top == 0 then addr / 4 * 4 else addr

-- What goes out for a value of `size` bytes; `data` is an `unsigned long` of 64 bits.
unfoldable pub data_aligned : (value size : ℕ) → ℕ
data_aligned value size =
    if size == 2
    then bit_or (value % 2 ^ 16) (value * 2 ^ 16) % 2 ^ 64
    else if size == 1
    then (let t = value % 2 ^ 8 in bit_or (bit_or (bit_or t (t * 2 ^ 8)) (t * 2 ^ 16)) (t * 2 ^ 24))
    else value

module _ (b : Bus) where
  -- `rsi_sdio_read_register_multiple` for a block, of which the first word is looked at.
  unfoldable pub read_word : ℕ → (addr size : ℕ) → Host → Read
  read_word address addr size h =
      if b.accepts h.transfers
      then got (sub_word addr size (first_word b address h.device))
          (record h { transfers = h.transfers + 1 })
      else failed
          (record h { transfers = h.transfers + 1; device = b.refused h.transfers h.device })

  unfoldable pub rsi_sdio_master_reg_read : (room : Bool) (addr size : ℕ) → Host → Read
  rsi_sdio_master_reg_read room addr size h =
      if not room then failed h else elim (rsi_sdio_master_access_msword b (addr / 2 ^ 16) h) [
        | ok h₁ ↦
            read_word (bit_or (on_bus (addr % 2 ^ 16)) sd_request_master) (addr % 2 ^ 16) size h₁
        | err h₁ ↦ failed h₁
      ]

  -- The buffer has 12 bytes, of which `data_aligned` fills eight; four are sent for every size.
  unfoldable pub rsi_sdio_master_reg_write : (room : Bool) (addr value size : ℕ) → Call
  rsi_sdio_master_reg_write room addr value size h =
      if not room
      then err h
      else (rsi_sdio_master_access_msword b (addr / 2 ^ 16 % 2 ^ 16)
            >> rsi_sdio_write_register_multiple b (bit_or (addr % 2 ^ 16) sd_request_master)
                (bytes_of 8 (data_aligned value size) ++ replicate 4 0) 4)
          h
