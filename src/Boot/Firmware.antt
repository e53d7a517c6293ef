-- ===== src/Boot/Firmware.antt =====
-- `rsi_secure_firmware_load` (of a build with CONFIG_SECURE_FW_LOAD) and `rsi_load_firmware` of
-- rsi/rsi_91x_hal.c, in a build without CONFIG_RS9116_FLASH_MODE.
pub mod Kept
pub mod Loaded
pub mod Unflashed
pub mod Secure
use si91x_rcp_driver.Prelude.{
  ℕ, zero, suc, ◌+◌, ◌-◌, ◌*◌, ◌/◌, ◌%◌, ◌^◌, Bool, true, false, Option, none, some, List, ◌∷◌,
  ◌==◌, if◌then◌else◌, length, drop,
}
use si91x_rcp_driver.Boot.Io.{
  start_timer, stop_timer, Trace, Device, Out, ok, err, stuck, Boot, pure, fail, ◌>>=◌, ◌>>◌,
  attempt, master_reg_write, write_reg_multiple, kzalloc,
}
use si91x_rcp_driver.Boot.Command.{
  swbl_regout, load_hosted_fw, burn_hosted_fw, ping_valid, pong_valid, eof_reached, check_crc,
  jump_to_zero_pc, bl_start_cmd_timer, bl_stop_cmd_timer, poll, regout_valid, in_time, bl_write_cmd,
  bl_cmd,
}
use si91x_rcp_driver.Boot.Upgrade.{
  cmd_pass, cmd_fail, or_stop, Buffer, ping_write, pong_write, auto_fw_upgrade, read_flash_capacity,
}
use si91x_rcp_driver.Boot.Image.{
  Firmware, memory, copy, File, metadata_flash_content, Loading, finished, past, bl_write_header,
  or_fail, rsi_load_9116_firmware,
}

-- RSI_FW_BLOCK_SIZE
abbrev pub rsi_fw_block_size : ℕ
rsi_fw_block_size = 4096

-- The command `cmd`, whatever came before and whatever it returns.
unfoldable pub afterwards : {A : Type 0} → Boot (Unit {0}) → Out A → Out A
afterwards cmd (ok a tr) = elim (cmd tr) [ ok u t ↦ ok a t | err r t ↦ ok a t | stuck ↦ stuck ]
afterwards cmd (err e tr) = elim (cmd tr) [ ok u t ↦ err e t | err r t ↦ err e t | stuck ↦ stuck ]
afterwards cmd stuck = stuck

-- What the CRC check says of the image in the flash.
pub data Verdict : Type 0 where
  matches mismatch : Verdict

module _ (d : Device) (coex_mode : ℕ) (is_9116 sdio : Bool) (f : ℕ) where
  -- PING_AVAIL is 'I', PONG_AVAIL is 'O'.
  unfoldable pub send_block : Buffer → List ℕ → Boot (Unit {0})
  send_block ping_write bytes = do
    write_reg_multiple d rsi_fw_block_size bytes
    or_stop (bl_cmd d coex_mode is_9116 f ping_valid b'O')
  send_block pong_write bytes = do
    write_reg_multiple d rsi_fw_block_size bytes
    or_stop (bl_cmd d coex_mode is_9116 f pong_valid b'I')

  abbrev pub other : Buffer → Buffer
  other ping_write = pong_write
  other pong_write = ping_write

  -- The loop, with `left` blocks to go after the one at hand. Each block is whole: the last one runs
  -- on into what is behind the firmware.
  unfoldable pub send_blocks : (left : ℕ) → Buffer → List ℕ → Boot (Unit {0})
  send_blocks zero b bytes = send_block b (copy rsi_fw_block_size bytes)
  send_blocks (suc left) b bytes = do
    send_block b (copy rsi_fw_block_size bytes)
    send_blocks left (other b) (drop rsi_fw_block_size bytes)

  -- `no_of_blocks`; the loop counts it down from 0 through 2 ^ 32 - 1.
  unfoldable pub no_of_blocks : (fw_sz : ℕ) → ℕ
  no_of_blocks fw_sz = fw_sz / rsi_fw_block_size + (if fw_sz % rsi_fw_block_size == 0 then 0 else 1)

  unfoldable pub last_block : (fw_sz : ℕ) → ℕ
  last_block fw_sz = (no_of_blocks fw_sz + (2 ^ 32 - 1)) % 2 ^ 32

  -- RSI_FW_UPGRADE is 'n', SEND_RPS_FILE is '2'.
  unfoldable pub rsi_secure_firmware_load : Firmware → Boot (Unit {0})
  rsi_secure_firmware_load fw = do
    bl_cmd d coex_mode is_9116 f b'n' b'2'
    kzalloc d
    send_blocks (last_block (length fw.content)) ping_write (memory fw)
    or_stop (bl_cmd d coex_mode is_9116 f eof_reached cmd_pass)
    bl_cmd d coex_mode is_9116 f jump_to_zero_pc cmd_pass

  -- The wait for the boot loader, up to `bl_stop_cmd_timer`.
  unfoldable pub await_board : Boot (Unit {0})
  await_board = do
    bl_start_cmd_timer 2000
    or_stop (do
      v ← poll d coex_mode is_9116 f swbl_regout (regout_valid d coex_mode is_9116) 0
      in_time d coex_mode is_9116
      pure tt)
    bl_stop_cmd_timer

  -- POLLING_MODE is 'P', CONFIG_AUTO_READ_MODE is 'R', LOADING_INITIATED is '1'.
  abbrev pub polling_mode : Boot (Unit {0})
  polling_mode = bl_cmd d coex_mode is_9116 f b'P' cmd_pass

  abbrev pub auto_read_mode : Boot (Unit {0})
  auto_read_mode = bl_cmd d coex_mode is_9116 f b'R' cmd_pass

  abbrev pub load_image_cmd : Boot (Unit {0})
  load_image_cmd = bl_cmd d coex_mode is_9116 f load_hosted_fw b'1'

  unfoldable pub load_9116 : (File → Option Firmware) → (is_9117 : Bool) → Boot Loading
  load_9116 request is_9117 =
      if sdio then rsi_load_9116_firmware d coex_mode is_9116 sdio request is_9117 else (do
        polling_mode
        λ tr.
            afterwards (bl_cmd d coex_mode is_9116 f jump_to_zero_pc cmd_pass)
              (rsi_load_9116_firmware d coex_mode is_9116 sdio request is_9117 tr))

  -- A command that fails in any other way than by the answer CMD_FAIL counts as a match.
  unfoldable pub check_image : Boot Verdict
  check_image tr =
      elim (bl_write_cmd d coex_mode is_9116 f check_crc cmd_pass (start_timer 2000 ∷ tr)) [
        | ok resp tr₁ ↦ ok matches (stop_timer ∷ tr₁)
        | err r tr₁ ↦
            if r % 2 ^ 8 == cmd_fail
            then ok mismatch (stop_timer ∷ tr₁)
            else ok matches (stop_timer ∷ stop_timer ∷ tr₁)
        | stuck ↦ stuck
      ]

  -- A failed upgrade ends in success if the device takes one more command.
  unfoldable pub fw_upgrade : (flash_capacity : ℕ) → List ℕ → Boot (Unit {0})
  fw_upgrade flash_capacity content = do
    bl_cmd d coex_mode is_9116 f burn_hosted_fw b'2'
    good ← attempt (auto_fw_upgrade d coex_mode is_9116 sdio f flash_capacity content)
    if good then load_image_cmd else auto_read_mode

  unfoldable pub load_or_upgrade : (flash_capacity : ℕ) → Firmware → Verdict → Boot (Unit {0})
  load_or_upgrade flash_capacity fw matches = polling_mode >> load_image_cmd
  load_or_upgrade flash_capacity fw mismatch = fw_upgrade flash_capacity fw.content

  abbrev pub some_flash : ℕ → Boot (Unit {0})
  some_flash flash_capacity = if flash_capacity == 0 then fail else pure tt

  unfoldable pub load_9113 : (File → Option Firmware) → Boot (Unit {0})
  load_9113 request = do
    auto_read_mode
    flash_capacity ← read_flash_capacity d coex_mode is_9116 sdio f
    some_flash flash_capacity
    fw ← or_fail (request (metadata_flash_content coex_mode))
    bl_write_header d coex_mode is_9116 sdio fw
    verdict ← check_image
    load_or_upgrade flash_capacity fw verdict

  -- REGOUT_INVALID is ~0xAB.
  unfoldable pub rsi_load_firmware : (File → Option Firmware) → (is_9117 : Bool) → Boot Loading
  rsi_load_firmware request is_9117 = do
    await_board
    master_reg_write d swbl_regout 0xFFFFFF54 2
    if is_9116 then load_9116 request is_9117 else (do load_9113 request; pure (finished true))
