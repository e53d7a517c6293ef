-- ===== src/Boot/Firmware/Unflashed.antt =====
-- A device whose image does not match, and a firmware that the upgrade refuses
-- (rsi/rsi_91x_hal.c).
use si91x_rcp_driver.Prelude.{
  ℕ, suc, ◌+◌, ◌*◌, ◌%◌, ◌^◌, ◌≡◌, ap, refl, true, false, some, List, [], ◌∷◌, ◌==◌, if◌then◌else◌,
}
use si91x_rcp_driver.Boot.Io.{
  look, start_timer, stop_timer, reg_read, reg_write, load, burst, msword, reset, Trace, Device,
  Out, ok, err, stuck, timer_expired, master_reg_read, master_reg_write, write_reg_multiple,
  master_access_msword, kzalloc,
}
use si91x_rcp_driver.Boot.Command.{
  swbl_regin, burn_hosted_fw, check_crc, poll, in_time, write_regin, judge, acknowledge,
  read_response, bl_write_cmd, timeout_of, bl_cmd,
}
use si91x_rcp_driver.Boot.Command.Answered.{loaded}
use si91x_rcp_driver.Boot.Upgrade.{
  cmd_pass, cmd_fail, fits_flash, flash_start_address, auto_fw_upgrade, read_flash_capacity,
}
use si91x_rcp_driver.Boot.Image.{Firmware, memory, finished, bl_header, write_at, bl_write_header}
use si91x_rcp_driver.Boot.Firmware.{
  await_board, check_image, fw_upgrade, load_or_upgrade, load_9113, rsi_load_firmware,
}

-- The command written last.
unfoldable pub last_cmd : Trace → ℕ
last_cmd [] = 0
last_cmd (look ∷ tr) = last_cmd tr
last_cmd (start_timer t ∷ tr) = last_cmd tr
last_cmd (stop_timer ∷ tr) = last_cmd tr
last_cmd (reg_read a ∷ tr) = last_cmd tr
last_cmd (reg_write a v s ∷ tr) = if a == swbl_regin then v % 2 ^ 8 else last_cmd tr
last_cmd (load a b bytes ∷ tr) = last_cmd tr
last_cmd (burst a bytes ∷ tr) = last_cmd tr
last_cmd (msword w ∷ tr) = last_cmd tr
last_cmd (reset ∷ tr) = last_cmd tr

-- The CRC check fails, every other command passes, and the flash has 1 MB.
pub response : ℕ → ℕ
response cmd =
    if cmd == check_crc then cmd_fail else if cmd == burn_hosted_fw then b'2' else cmd_pass

abbrev pub answer : Trace → ℕ → ℕ
answer tr addr =
    if addr == swbl_regin
    then 0
    else if addr == 0x04000016
    then 1024
    else 0xAB00 + response (last_cmd tr)

abbrev pub mismatched : Device
mismatched = record {
  expired = λ tr. false;
  read = λ tr addr. some (answer tr addr);
  writes = λ tr. true;
  loads = λ tr. true;
  bursts = λ tr. true;
  mswords = λ tr. true;
  allocs = λ tr. true;
}

-- The commands, for the proofs that compute with them.
commands : Unit {0}
unfolding bl_cmd bl_write_cmd read_response acknowledge judge write_regin in_time poll timeout_of
    timer_expired master_reg_read master_reg_write last_cmd response
commands = tt

trace_of : {A : Type 0} → Out A → Trace
trace_of (ok a t) = t
trace_of (err r t) = t
trace_of stuck = []

-- The burn command, and the command after the refusal.
burn_refused : ℕ → Trace → Trace
unfolding last_cmd trace_of fw_upgrade auto_fw_upgrade commands
burn_refused f tr = trace_of (fw_upgrade mismatched 1 false true (suc f) (1024 * 1024) [] tr)

burn_refused_empty : (f : ℕ) (tr : Trace) → loaded (burn_refused f tr) ≡ loaded tr
unfolding last_cmd burn_refused fits_flash flash_start_address loaded
burn_refused_empty f tr = refl

fw_upgrade_refused :
    (f : ℕ) (content : List ℕ) (tr : Trace)
    → fits_flash (1024 * 1024) content ≡ false
    → fw_upgrade mismatched 1 false true (suc f) (1024 * 1024) content tr
      ≡ ok tt (burn_refused f tr)
unfolding last_cmd burn_refused fits_flash flash_start_address
fw_upgrade_refused f content tr h = rw (h, auto_fw_upgrade) refl

-- On a 9113 over SDIO with 1 MB of flash, which says that its image does not match and takes every
-- other command, a firmware that does not fit the flash is reported as loaded, and only the header
-- made from it has been handed over.
pub rsi_load_firmware_unflashed :
    (f : ℕ) (fw : Firmware)
    → fits_flash (1024 * 1024) fw.content ≡ false
    → (t : Trace) × (rsi_load_firmware mismatched 1 false true (suc f) (λ file. some fw) false []
        ≡ ok (finished true) t)
      × (loaded t ≡ bl_header 1 (memory fw))
unfolding last_cmd rsi_load_firmware await_board load_9113 check_image load_or_upgrade
    bl_write_header write_at read_flash_capacity write_reg_multiple master_access_msword kzalloc
    loaded commands
rsi_load_firmware_unflashed f fw h = (
  _,
  ap
      (λ (o : Out (Unit {0})). elim o [
        | ok a t ↦ ok (finished true) t
        | err r t ↦ err r t
        | stuck ↦ stuck
      ])
      (fw_upgrade_refused f fw.content _ h),
  burn_refused_empty f _,
)
