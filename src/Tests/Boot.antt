-- ===== src/Tests/Boot.antt =====
-- The boot loader theorems at a device that gives every command the answer that is expected, up to
-- the time limit, with a flash of 1 MB whose image does not match the file.
use si91x_rcp_driver.Prelude.{
  ℕ, suc, ◌+◌, ◌*◌, ◌≡◌, Bool, true, false, ◌||◌, none, some, List, [], ◌∷◌, ◌++◌, ltb, ◌==◌,
  if◌then◌else◌, arith, replicate, drop, ltb→lt, lt→ltb, refl,
}
use si91x_rcp_driver.Boot.Io.{
  look, reg_write, load, reset, Trace, Device, Out, ok, err, stuck, timer_expired, master_reg_read,
  master_reg_write, load_data_master_write, write_reg_multiple, master_access_msword, kzalloc,
}
use si91x_rcp_driver.Boot.Command.{
  swbl_regin, burn_hosted_fw, check_crc, eof_reached, ping_valid, pong_valid, poll, in_time,
  write_regin, judge, acknowledge, read_response, bl_write_cmd, timeout_of, bl_cmd,
}
use si91x_rcp_driver.Boot.Command.Answered.{Timed, looks, loaded, Sat}
use si91x_rcp_driver.Boot.Upgrade.{
  cmd_pass, cmd_fail, auto_fw_upgrade, rsi_check_crc, fits_flash, flash_start_address,
  ping_pong_write, write_chunks, read_flash_capacity,
}
use si91x_rcp_driver.Boot.Image.{
  Firmware, memory, copy, finished, bl_header, bl_entries, rsi_load_9116_firmware, write_at,
  bl_write_header,
}
use si91x_rcp_driver.Boot.Image.Chunks.{chunk_loads, rsi_load_9116_firmware_last}
use si91x_rcp_driver.Boot.Firmware.{
  rsi_load_firmware, rsi_secure_firmware_load, send_block, send_blocks, no_of_blocks, last_block,
  await_board, check_image, fw_upgrade, load_or_upgrade, load_9113,
}
use si91x_rcp_driver.Boot.Firmware.Loaded.{Flashed, Holding, rsi_load_firmware-Flashed}
use si91x_rcp_driver.Boot.Firmware.Secure.{overrun, rsi_secure_firmware_load-Holding}
use si91x_rcp_driver.Boot.Firmware.Unflashed.{mismatched, last_cmd, rsi_load_firmware_unflashed}
use si91x_rcp_driver.Boot.Upgrade.Written.{Upgraded, auto_fw_upgrade-Upgraded, rsi_check_crc_silent}

-- The response to a command: IMAGE_STORED_IN_DUMP is 0xF7, and the CRC check fails.
response : ℕ → ℕ
response cmd =
    if cmd == eof_reached
    then 0xF7
    else if cmd == ping_valid
    then b'O'
    else if cmd == pong_valid
    then b'I'
    else if (cmd == burn_hosted_fw) || (cmd == b'n')
    then b'2'
    else if cmd == check_crc
    then cmd_fail
    else cmd_pass

abbrev willing : Device
willing = record {
  expired = λ tr. ltb 60 (looks tr);
  read = λ tr addr. some (
      if addr == swbl_regin
      then 0
      else if addr == 0x04000016
      then 1024
      else 0xAB00 + response (last_cmd tr));
  writes = λ tr. true;
  loads = λ tr. true;
  bursts = λ tr. true;
  mswords = λ tr. true;
  allocs = λ tr. true;
}

timed : Timed willing 60
unfolding looks
timed = record {
  ends = λ tr h. lt→ltb 60 (looks tr) h;
  steady =
      λ tr h. lt→ltb 60 (looks (look ∷ look ∷ tr)) (omega (arith, ltb→lt 60 (looks (look ∷ tr)) h));
}

abbrev image : List ℕ
image = replicate 17 0 ++ 0x20 ∷ 0x01 ∷ 0 ∷ replicate 10 7

auto_fw_upgrade-Upgraded_example :
    Sat (Upgraded 0x100000 image []) (auto_fw_upgrade willing 0 false true 61 0x100000 image [])
auto_fw_upgrade-Upgraded_example =
    auto_fw_upgrade-Upgraded willing 0 false true 60 timed 61 0x100000 image [] (omega arith)

-- Whether a run ends in success.
succeeds : {A : Type 0} → Out A → Bool
succeeds (ok a t) = true
succeeds (err r t) = false
succeeds stuck = false

abbrev silent : Device
silent = record {
  expired = λ tr. true;
  read = λ tr addr. none;
  writes = λ tr. true;
  loads = λ tr. true;
  bursts = λ tr. true;
  mswords = λ tr. true;
  allocs = λ tr. true;
}

silent_device_matches : (t : Trace) × (rsi_check_crc silent 0 false true 1 [] ≡ ok tt t)
silent_device_matches = rsi_check_crc_silent silent 0 false true 0 (λ t. refl) [] refl

-- A firmware of 30 bytes behind which two more stand in memory.
abbrev firmware : Firmware
firmware = record { content = image; behind = 9 ∷ 8 ∷ [] }

rsi_load_firmware-Flashed_example :
    Sat
      (Flashed willing 1 true 61 (λ file. some firmware) [])
      (rsi_load_firmware willing 1 false true 61 (λ file. some firmware) false [])
rsi_load_firmware-Flashed_example =
    rsi_load_firmware-Flashed willing 1 true 60 timed 61 (λ file. some firmware) false []
      (omega arith)

rsi_secure_firmware_load-Holding_example :
    Sat
      (Holding {A = Unit {0}} (image ++ copy (overrun 30) (9 ∷ 8 ∷ [])))
      (rsi_secure_firmware_load willing 1 true true 61 firmware [])
unfolding loaded
rsi_secure_firmware_load-Holding_example =
    rsi_secure_firmware_load-Holding willing 1 true true 60 timed 61 (omega arith) firmware []
      (omega arith) (omega arith)

-- The start address of this one is 0.
abbrev misplaced : Firmware
misplaced = record { content = replicate 24 1 ++ replicate 40 0; behind = [] }

misplaced_unfit : fits_flash (1024 * 1024) misplaced.content ≡ false
unfolding fits_flash flash_start_address
misplaced_unfit = refl

rsi_load_firmware_unflashed_example :
    (t : Trace) × (rsi_load_firmware mismatched 1 false true 1 (λ file. some misplaced) false []
      ≡ ok (finished true) t)
    × (loaded t ≡ bl_header 1 (memory misplaced))
rsi_load_firmware_unflashed_example = rsi_load_firmware_unflashed 0 misplaced misplaced_unfit

-- A table of two entries, of 4 and of 2 bytes, and a bus that refuses the first load.
abbrev table : List ℕ
table =
    0xa5 ∷ 0x5a ∷ 64 ∷ 0 ∷ replicate 4 0
    ++ (4 ∷ 0 ∷ 0 ∷ 0 ∷ 0 ∷ 1 ∷ 0 ∷ 0 ∷ []
        ++ (2 ∷ 0 ∷ 0 ∷ 128 ∷ 0 ∷ 2 ∷ 0 ∷ 0 ∷ [] ++ replicate 40 0))

abbrev chunked : Firmware
chunked = record { content = table ++ 1 ∷ 2 ∷ 3 ∷ 4 ∷ 5 ∷ 6 ∷ []; behind = [] }

abbrev steps : Trace → ℕ
steps [] = 0
steps (io ∷ tr) = suc (steps tr)

abbrev refusing : Device
refusing = record willing { loads = λ tr. ltb 1 (steps tr) }

chunked_loads :
    chunk_loads 256
      (bl_entries 7 0 (memory chunked))
      (drop 64 (memory chunked))
      (reg_write 0x41300000 0x03F0003C 4 ∷ [])
    ≡ some (
      load 0x200 256 (5 ∷ 6 ∷ []),
      load 0x100 256 (1 ∷ 2 ∷ 3 ∷ 4 ∷ []) ∷ reg_write 0x41300000 0x03F0003C 4 ∷ [],
    )
unfolding chunk_loads bl_entries
chunked_loads = refl

-- The first chunk was refused, and the loading succeeds.
rsi_load_9116_firmware_last_example :
    rsi_load_9116_firmware refusing 1 true true (λ file. some chunked) true []
    ≡ ok (finished true) (
        reset
        ∷ load 0x200 256 (5 ∷ 6 ∷ [])
        ∷ load 0x100 256 (1 ∷ 2 ∷ 3 ∷ 4 ∷ [])
        ∷ reg_write 0x41300000 0x03F0003C 4
        ∷ [])
rsi_load_9116_firmware_last_example =
    rsi_load_9116_firmware_last refusing 1 true true (λ file. some chunked) chunked []
      (load 0x200 256 (5 ∷ 6 ∷ []))
      (load 0x100 256 (1 ∷ 2 ∷ 3 ∷ 4 ∷ []) ∷ reg_write 0x41300000 0x03F0003C 4 ∷ []) refl refl refl
      chunked_loads

-- The runs above succeed.
upgrade_succeeds : succeeds (auto_fw_upgrade willing 0 false true 61 0x100000 image []) ≡ true
unfolding timer_expired master_reg_read master_reg_write load_data_master_write poll in_time
    write_regin judge acknowledge read_response bl_write_cmd timeout_of bl_cmd flash_start_address
    fits_flash ping_pong_write write_chunks auto_fw_upgrade looks last_cmd succeeds response
upgrade_succeeds = refl

load_succeeds :
    succeeds (rsi_load_firmware willing 1 false true 61 (λ file. some firmware) false []) ≡ true
unfolding timer_expired master_reg_read master_reg_write load_data_master_write write_reg_multiple
    master_access_msword kzalloc poll in_time write_regin judge acknowledge read_response
    bl_write_cmd timeout_of bl_cmd flash_start_address fits_flash ping_pong_write write_chunks
    auto_fw_upgrade read_flash_capacity bl_header write_at bl_write_header await_board check_image
    fw_upgrade load_or_upgrade load_9113 rsi_load_firmware looks last_cmd succeeds response
load_succeeds = refl

secure_load_succeeds : succeeds (rsi_secure_firmware_load willing 1 true true 61 firmware []) ≡ true
unfolding timer_expired master_reg_read master_reg_write load_data_master_write write_reg_multiple
    kzalloc poll in_time write_regin judge acknowledge read_response bl_write_cmd timeout_of bl_cmd
    send_block send_blocks no_of_blocks last_block rsi_secure_firmware_load looks last_cmd succeeds
    response
secure_load_succeeds = refl
