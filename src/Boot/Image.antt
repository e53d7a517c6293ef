-- ===== src/Boot/Image.antt =====
-- The images that rsi/rsi_91x_hal.c hands to the device: `bl_write_header` and
-- `rsi_load_9116_firmware`, in a build without CONFIG_RS9116_FLASH_MODE. The version that is read
-- out of an image and printed is left out.
pub mod Chunks
use Prim.Native.Nat.{bit_or}
use si91x_rcp_driver.Prelude.{
  ℕ, zero, suc, ◌+◌, ◌-◌, ◌*◌, ◌/◌, ◌%◌, ◌^◌, Bool, true, false, not, Option, none, some, List, [],
  ◌∷◌, ◌++◌, ◌==◌, if◌then◌else◌, length, take, drop, get_or,
}
use si91x_rcp_driver.Boot.Io.{
  Io, reset, Trace, Device, Out, ok, err, stuck, Boot, pure, fail, ◌>>=◌, ◌>>◌, step, attempt,
  master_reg_read, master_reg_write, load_data_master_write, write_reg_multiple,
  master_access_msword, kzalloc,
}
use si91x_rcp_driver.Boot.Upgrade.{ping_buffer_address}

-- A firmware in memory: `fw_entry->data`, of `fw_entry->size` bytes, and the bytes behind them.
pub record Firmware : Type 0 where
  pub content : List ℕ
  pub behind : List ℕ

abbrev pub memory : Firmware → List ℕ
memory fw = fw.content ++ fw.behind

-- `memcpy` of `n` bytes. What is behind the bytes of the model is 0.
unfoldable pub copy : ℕ → List ℕ → List ℕ
copy zero bytes = []
copy (suc n) [] = 0 ∷ copy n []
copy (suc n) (b ∷ bytes) = b ∷ copy n bytes

-- The file that is asked for; the number is `coex_mode`.
pub data File : Type 0 where
  metadata_9117 : File
  metadata_1p5 : ℕ → File
  metadata : ℕ → File
  metadata_flash_content : ℕ → File

abbrev pub slice : (from n : ℕ) → List ℕ → List ℕ
slice from n bytes = take n (drop from bytes)

abbrev pub u16_at : List ℕ → ℕ → ℕ
u16_at bytes i = get_or bytes i 0 + get_or bytes (i + 1) 0 * 2 ^ 8

abbrev pub u32_at : List ℕ → ℕ → ℕ
u32_at bytes i = u16_at bytes i + u16_at bytes (i + 2) * 2 ^ 16

abbrev pub le32 : ℕ → List ℕ
le32 n = n % 2 ^ 8 ∷ n / 2 ^ 8 % 2 ^ 8 ∷ n / 2 ^ 16 % 2 ^ 8 ∷ n / 2 ^ 24 % 2 ^ 8 ∷ []

-- PING_BUFFER_ADDRESS_9116, RS9116_RPS_HEADER_SIZE, SD_REQUEST_MASTER
abbrev pub ping_buffer_address_9116 : ℕ
ping_buffer_address_9116 = 0x18000 + 0x4

abbrev pub rps_header_size : ℕ
rps_header_size = 0x40

abbrev pub sd_request_master : ℕ
sd_request_master = 0x10000

-- `struct bl_header`: the flags, the image number, the check sum, the start address and the length.
unfoldable pub bl_header : ℕ → List ℕ → List ℕ
bl_header coex_mode bytes =
    le32 0 ++ (le32 coex_mode ++ (slice 20 4 bytes ++ (slice 16 4 bytes ++ slice 8 4 bytes)))

-- `struct bootload_entry`
pub record Entry : Type 0 where
  pub control : ℕ
  pub dst_addr : ℕ

-- RSI_BL_CTRL_LEN_MASK and RSI_BL_CTRL_LAST_ENTRY
abbrev pub entry_len : Entry → ℕ
entry_len e = e.control % 2 ^ 24

abbrev pub is_last : Entry → Bool
is_last e = e.control / 2 ^ 31 % 2 == 1

-- The entries of `struct bootload_ds`, from the `i`-th on.
unfoldable pub bl_entries : (n i : ℕ) → List ℕ → List Entry
bl_entries zero i bytes = []
bl_entries (suc n) i bytes =
    record { control = u32_at bytes (8 + 8 * i); dst_addr = u32_at bytes (12 + 8 * i) }
    ∷ bl_entries n (i + 1) bytes

-- How a loading that was not cut short by an error ends; `past` is a read behind the seven entries.
pub data Loading : Type 0 where
  finished : (good : Bool) → Loading
  past : Loading

abbrev pub or_fail : {A : Type 0} → Option A → Boot A
or_fail none = fail
or_fail (some a) = pure a

module _ (d : Device) (coex_mode : ℕ) (is_9116 sdio : Bool) where
  -- Over SDIO the upper half of the address goes to a register of its own.
  unfoldable pub write_at : (addr : ℕ) → List ℕ → Boot (Unit {0})
  write_at addr bytes =
      if sdio
      then (do
        master_access_msword d (addr / 2 ^ 16)
        write_reg_multiple d (bit_or sd_request_master (addr % 2 ^ 16)) bytes)
      else write_reg_multiple d addr bytes

  unfoldable pub bl_write_header : Firmware → Boot (Unit {0})
  bl_write_header fw =
      if not is_9116
      then (do kzalloc d; write_at ping_buffer_address (bl_header coex_mode (memory fw)))
      else if sdio
      then (do kzalloc d; write_at ping_buffer_address_9116 (take rps_header_size (memory fw)))
      else write_at ping_buffer_address_9116 (take rps_header_size (memory fw))

  -- The loop over the chunks of an image, from `bytes` on. `status` is that of the last load.
  unfoldable pub load_chunks : (block_size : ℕ) → List Entry → List ℕ → Boot Loading
  load_chunks block_size [] bytes = pure past
  load_chunks block_size (e ∷ es) bytes = do
    good ← attempt (load_data_master_write d e.dst_addr block_size (take (entry_len e) bytes))
    if is_last e then pure (finished good) else load_chunks block_size es (drop (entry_len e) bytes)

  -- From the test for 0x5aa5 on. The length of an image without a table is rounded up to words.
  unfoldable pub load_image : Firmware → Boot Loading
  load_image fw =
      let block_size = if sdio then 256 else 252 in
      let size = length fw.content in
      if u16_at (memory fw) 0 == 0x5aa5
      then load_chunks block_size (bl_entries 7 0 (memory fw))
          (drop (u16_at (memory fw) 2) (memory fw))
      else (do
        good ← attempt (
            load_data_master_write d 0 block_size
              (take (if size % 4 == 0 then size else size + (4 - size % 4)) (memory fw)))
        pure (finished good))

  -- The device is put into reset over SDIO, and `-EIO` stands for every status but 0.
  unfoldable pub conclude : Loading → Boot Loading
  conclude past = pure past
  conclude (finished false) = fail
  conclude (finished true) =
      if sdio then (do step reset; pure (finished true)) else pure (finished true)

  -- REG_CHIP_REV is 0x04000437, CHIP_REV_1P5 is 0x15.
  unfoldable pub choose_file : (is_9117 : Bool) → Boot File
  choose_file true = pure metadata_9117
  choose_file false = do
    chip_rev ← master_reg_read d 0x04000437
    pure (if chip_rev % 2 ^ 8 == 0x15 then metadata_1p5 coex_mode else metadata coex_mode)

  -- `request` is `request_firmware`, by the file.
  unfoldable pub rsi_load_9116_firmware : (File → Option Firmware) → (is_9117 : Bool) → Boot Loading
  rsi_load_9116_firmware request is_9117 = do
    master_reg_write d 0x41300000 0x03F0003C 4
    file ← choose_file is_9117
    fw ← or_fail (request file)
    done ← load_image fw
    conclude done
