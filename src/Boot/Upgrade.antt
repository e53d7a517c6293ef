-- ===== src/Boot/Upgrade.antt =====
-- The firmware upgrade of rsi/rsi_91x_hal.c: `ping_pong_write`, `auto_fw_upgrade`, and
-- `read_flash_capacity` and `rsi_check_crc`, which decide about it.
pub mod Written
use si91x_rcp_driver.Prelude.{
  ℕ, zero, suc, ◌+◌, ◌-◌, ◌*◌, ◌/◌, ◌%◌, ◌^◌, Bool, true, false, not, ◌&&◌, ◌||◌, Option, none,
  some, List, ◌∷◌, ltb, ◌==◌, if◌then◌else◌, length, take, drop, get_or,
}
use si91x_rcp_driver.Boot.Io.{
  Io, start_timer, stop_timer, Trace, Device, Out, ok, err, stuck, Boot, pure, fail, ◌>>=◌, ◌>>◌,
  step, master_reg_read, master_reg_write, load_data_master_write,
}
use si91x_rcp_driver.Boot.Command.{
  bl_cmd, bl_write_cmd, bl_start_cmd_timer, bl_stop_cmd_timer, ping_valid, pong_valid, eof_reached,
  check_crc,
}

abbrev pub ping_buffer_address : ℕ
ping_buffer_address = 0x19000

abbrev pub pong_buffer_address : ℕ
pong_buffer_address = 0x1a000

abbrev pub flash_write_chunk_size : ℕ
flash_write_chunk_size = 4 * 1024

abbrev pub max_flash_file_size : ℕ
max_flash_file_size = 400 * 1024

abbrev pub fw_image_min_address : ℕ
fw_image_min_address = 68 * 1024

abbrev pub flash_sector_size : ℕ
flash_sector_size = 4 * 1024

-- CMD_PASS and CMD_FAIL
abbrev pub cmd_pass : ℕ
cmd_pass = 0xAA

abbrev pub cmd_fail : ℕ
cmd_fail = 0xCC

-- `if (bl_cmd(...) < 0) { bl_stop_cmd_timer(adapter); goto fail; }`
abbrev pub or_stop : Boot (Unit {0}) → Boot (Unit {0})
or_stop cmd tr = elim (cmd tr) [
  | ok u tr₁ ↦ ok u tr₁
  | err r tr₁ ↦ err r (stop_timer ∷ tr₁)
  | stuck ↦ stuck
]

pub data Buffer : Type 0 where
  ping_write : Buffer
  pong_write : Buffer

-- `*(u32 *)&flash_content[FLASHING_START_ADDRESS]`, little-endian. A firmware of fewer than 20 bytes
-- would be read past its end: 0 stands for what is there.
unfoldable pub flash_start_address : List ℕ → ℕ
flash_start_address content =
    get_or content 16 0
    + get_or content 17 0 * 2 ^ 8
    + get_or content 18 0 * 2 ^ 16
    + get_or content 19 0 * 2 ^ 24

-- The four tests, with `content_size` the length of the content; the sum is a `u32`.
unfoldable pub fits_flash : ℕ → List ℕ → Bool
fits_flash flash_capacity content = not (
    ltb max_flash_file_size (length content)
    || (ltb (flash_start_address content) fw_image_min_address
        || (not (flash_start_address content % flash_sector_size == 0)
            || ltb flash_capacity ((flash_start_address content + length content) % 2 ^ 32))))

-- `sdio` is RSI_HOST_INTF_SDIO, `f` the fuel of the loops of one command.
module _ (d : Device) (coex_mode : ℕ) (is_9116 sdio : Bool) (f : ℕ) where
  abbrev pub block_size : ℕ
  block_size = if sdio then 256 else 252

  -- PONG_AVAIL is 'O' and PING_AVAIL 'I'.
  unfoldable pub ping_pong_write : Buffer → List ℕ → Boot (Unit {0})
  ping_pong_write ping_write bytes = do
    load_data_master_write d ping_buffer_address block_size bytes
    or_stop (bl_cmd d coex_mode is_9116 f ping_valid b'O')
  ping_pong_write pong_write bytes = do
    load_data_master_write d pong_buffer_address block_size bytes
    or_stop (bl_cmd d coex_mode is_9116 f pong_valid b'I')

  -- `index % 2`
  abbrev pub buffer_of : ℕ → Buffer
  buffer_of index = if index % 2 == 0 then pong_write else ping_write

  -- The loop, with `num_flash - index` whole chunks to go. `total` is `temp_content_size`.
  unfoldable pub write_chunks : ℕ → ℕ → ℕ → List ℕ → Boot (Unit {0})
  write_chunks zero total index flash_content =
      let size = total % flash_write_chunk_size in
      if size == 0 then pure tt else ping_pong_write (buffer_of index) (take size flash_content)
  write_chunks (suc left) total index flash_content = do
    ping_pong_write (buffer_of index) (take flash_write_chunk_size flash_content)
    write_chunks left total (index + 1) (drop flash_write_chunk_size flash_content)

  -- FW_LOADING_SUCCESSFUL is 'S'.
  unfoldable pub auto_fw_upgrade : ℕ → List ℕ → Boot (Unit {0})
  auto_fw_upgrade flash_capacity content =
      if not (fits_flash flash_capacity content) then fail else (do
        write_chunks (length content / flash_write_chunk_size) (length content) 0 content
        or_stop (bl_cmd d coex_mode is_9116 f eof_reached b'S'))

  -- FLASH_SIZE_ADDR is 0x04000016; 0 if it cannot be read, and a `u32`.
  unfoldable pub read_flash_capacity : Boot ℕ
  read_flash_capacity tr = elim (master_reg_read d 0x04000016 tr) [
    | ok flash_sz tr₁ ↦ ok (flash_sz * 1024 % 2 ^ 32) tr₁
    | err r tr₁ ↦ ok 0 tr₁
    | stuck ↦ stuck
  ]

  -- From `if (bl_write_cmd(...) < 0)` on.
  unfoldable pub judge_crc : Boot (Unit {0})
  judge_crc tr = elim (bl_write_cmd d coex_mode is_9116 f check_crc cmd_pass tr) [
    | ok resp tr₁ ↦ bl_stop_cmd_timer tr₁
    | err r tr₁ ↦
        (bl_stop_cmd_timer >> (if r % 2 ^ 8 == cmd_fail then fail else bl_stop_cmd_timer)) tr₁
    | stuck ↦ stuck
  ]

  -- RAM_384K_ACCESS_FROM_TA is written to MEM_ACCESS_CTRL_FROM_HOST first. A command that failed in
  -- any other way than by the answer CMD_FAIL counts as a match.
  unfoldable pub rsi_check_crc : Boot (Unit {0})
  rsi_check_crc = do master_reg_write d 0x41300000 0x03F0003C 4; bl_start_cmd_timer 2000; judge_crc
