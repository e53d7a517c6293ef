-- ===== src/Boot/Command.antt =====
-- `bl_write_cmd`, `bl_cmd` and the command timer of rsi/rsi_91x_hal.c.
pub mod Answered
use Prim.Native.Nat.{bit_or}
use si91x_rcp_driver.Prelude.{
  ℕ, zero, suc, ◌+◌, ◌*◌, ◌/◌, ◌%◌, ◌^◌, ◌≡◌, Bool, true, false, not, ◌&&◌, ◌||◌, Option, none,
  some, List, ◌∷◌, ltb, ◌==◌, if◌then◌else◌,
}
use si91x_rcp_driver.Boot.Io.{
  Io, start_timer, stop_timer, Trace, Device, Out, ok, err, stuck, Boot, pure, fail, ◌>>=◌, ◌>>◌,
  step, timer_expired, master_reg_read, master_reg_write,
}

-- Registers and commands of rsi/rsi_hal.h
abbrev pub swbl_regin : ℕ
swbl_regin = 0x41050034

abbrev pub swbl_regout : ℕ
swbl_regout = 0x4105003c

abbrev pub load_hosted_fw : ℕ
load_hosted_fw = b'A'

abbrev pub burn_hosted_fw : ℕ
burn_hosted_fw = b'B'

abbrev pub ping_valid : ℕ
ping_valid = b'I'

abbrev pub pong_valid : ℕ
pong_valid = b'O'

abbrev pub eof_reached : ℕ
eof_reached = b'E'

abbrev pub check_crc : ℕ
check_crc = b'K'

abbrev pub jump_to_zero_pc : ℕ
jump_to_zero_pc = b'J'

abbrev pub image_stored_in_dump : ℕ
image_stored_in_dump = 0xF7

-- `timer_setup` and `add_timer`; the flag is cleared.
abbrev pub bl_start_cmd_timer : ℕ → Boot (Unit {0})
bl_start_cmd_timer timeout = step (start_timer timeout)

abbrev pub bl_stop_cmd_timer : Boot (Unit {0})
bl_stop_cmd_timer = step stop_timer

-- `coex_mode` is `adapter->priv->coex_mode`, `is_9116` is DEV_MODEL_9116.
module _ (d : Device) (coex_mode : ℕ) (is_9116 : Bool) where
  -- `while (!adapter->blcmd_timer_expired)`: read `reg` until `good`, or until the time is over.
  -- The answer is the last value read, 0 if there was none.
  unfoldable pub poll : ℕ → ℕ → (ℕ → Bool) → ℕ → Boot ℕ
  poll zero reg good last tr = stuck
  poll (suc f) reg good last tr = elim (timer_expired d tr) [
    | err r tr₁ ↦ err r tr₁
    | stuck ↦ stuck
    | ok over tr₁ ↦ elim over [
      | true ↦ ok last tr₁
      | false ↦ elim (master_reg_read d reg tr₁) [
        | err r tr₂ ↦ err r tr₂
        | stuck ↦ stuck
        | ok v tr₂ ↦ elim (good v) [ true ↦ ok v tr₂ | false ↦ poll f reg good v tr₂ ]
      ]
    ]
  ]

  -- `if (adapter->blcmd_timer_expired) goto fail;`
  unfoldable pub in_time : Boot (Unit {0})
  in_time = do over ← timer_expired d; if over then fail else pure tt

  -- REGIN_VALID is 0xA, REGOUT_VALID is 0xAB.
  abbrev regin_free : ℕ → Bool
  regin_free v = not (v / 2 ^ 12 == 0xA)

  abbrev pub regout_valid : ℕ → Bool
  regout_valid v = v / 2 ^ 8 == 0xAB

  -- REGIN_INPUT is 0xA0.
  unfoldable pub write_regin : ℕ → Boot (Unit {0})
  write_regin cmd =
      let regin_input = bit_or 0xA0 coex_mode in
      if (cmd == check_crc) && is_9116
      then master_reg_write d swbl_regin (bit_or cmd (bit_or regin_input (2 ^ 8) * 2 ^ 8)) 4
      else master_reg_write d swbl_regin (bit_or cmd (regin_input * 2 ^ 8)) 2

  -- The test of the response. `cmd_resp` is the answer's low 16 bits.
  unfoldable pub judge : ℕ → ℕ → ℕ → Boot ℕ
  judge cmd exp_resp regout tr =
      let output = regout % 2 ^ 8 in
      let cmd_resp = regout % 2 ^ 16 in
      if (output == exp_resp) || ((cmd == eof_reached) && (output == image_stored_in_dump))
      then ok cmd_resp tr
      else err cmd_resp tr

  -- `*cmd_resp` is set before the answer is acknowledged, with `cmd | REGOUT_INVALID << 8` as a
  -- `u32`, and judged.
  unfoldable pub acknowledge : ℕ → ℕ → ℕ → Boot ℕ
  acknowledge cmd exp_resp regout tr =
      elim (master_reg_write d swbl_regout (bit_or cmd 0xFFFF5400) 2 tr) [
        | ok u tr₁ ↦ judge cmd exp_resp regout tr₁
        | err r tr₁ ↦ err (regout % 2 ^ 16) tr₁
        | stuck ↦ stuck
      ]

  -- From the second loop on.
  unfoldable pub read_response : ℕ → ℕ → ℕ → Boot ℕ
  read_response f cmd exp_resp = do
    regout ← poll f swbl_regout regout_valid 0
    in_time
    acknowledge cmd exp_resp regout

  -- LOAD_HOSTED_FW and JUMP_TO_ZERO_PC expect no response, and leave `cmd_resp` as it was, 0.
  unfoldable pub bl_write_cmd : ℕ → ℕ → ℕ → Boot ℕ
  bl_write_cmd f cmd exp_resp = do
    regin ← poll f swbl_regin regin_free 0
    in_time
    write_regin cmd
    if (cmd == load_hosted_fw) || (cmd == jump_to_zero_pc)
        then pure 0
        else read_response f cmd exp_resp

  -- BL_BURN_TIMEOUT and BL_CMD_TIMEOUT
  unfoldable pub timeout_of : ℕ → ℕ
  timeout_of cmd =
      if (cmd == eof_reached) || ((cmd == ping_valid) || (cmd == pong_valid))
      then 50 * 1000
      else 2000

  -- The timer is stopped whatever the command returned.
  unfoldable pub bl_cmd : ℕ → ℕ → ℕ → Boot (Unit {0})
  bl_cmd f cmd exp_resp tr =
      elim (bl_write_cmd f cmd exp_resp (start_timer (timeout_of cmd) ∷ tr)) [
        | ok resp tr₁ ↦ ok tt (stop_timer ∷ tr₁)
        | err r tr₁ ↦ err r (stop_timer ∷ tr₁)
        | stuck ↦ stuck
      ]
