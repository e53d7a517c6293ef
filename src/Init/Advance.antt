-- ===== src/Init/Advance.antt =====
-- Where the confirmations of `rsi_handle_ta_confirm` (rsi/rsi_91x_mgmt.c) lead, if the device answers.
use si91x_rcp_driver.Prelude.{
  ℕ, zero, suc, ◌+◌, ◌%◌, ◌^◌, ◌≤◌, ◌<◌, ◌≡◌, ◌≢◌, Bool, true, List, arith, dec_lt,
}
use si91x_rcp_driver.Init.State.{
  Fsm, common_dev_params_sent, boot_params_sent, eeprom_read_mac_addr, eeprom_read_rf_type,
  reset_mac_sent, radio_caps_sent, bb_rf_prog_sent, mac_init_done, Init, send, program,
}
use si91x_rcp_driver.Init.Ready.{byte, u16, boot, magic_word}
use si91x_rcp_driver.Init.Confirm.{
  SubType, common_dev_config, bootup_params_request, eeprom_read_cfm, reset_mac_req,
  radio_capabilities, bbp_prog_in_ta, cfm_dev_config, reset, read_eeprom, cfm_bootup, cfm_mac_addr,
  set_bands, cfm_rf_type, cfm_eeprom, cfm_reset_mac, program_radio, cfm_radio_caps, finish,
  cfm_bb_rf, handle_ta_confirm,
}
use si91x_rcp_driver.Init.Order.{counted}

-- The confirmation that a state waits for.
abbrev pub due : Fsm → SubType
due common_dev_params_sent = common_dev_config
due boot_params_sent = bootup_params_request
due eeprom_read_mac_addr = eeprom_read_cfm
due eeprom_read_rf_type = eeprom_read_cfm
due reset_mac_sent = reset_mac_req
due radio_caps_sent = radio_capabilities
due _ = bbp_prog_in_ta

-- How far a state is; 0 where no confirmation is waited for.
abbrev pub rank : Fsm → ℕ
rank common_dev_params_sent = 1
rank boot_params_sent = 2
rank eeprom_read_mac_addr = 3
rank eeprom_read_rf_type = 4
rank reset_mac_sent = 5
rank radio_caps_sent = 6
rank bb_rf_prog_sent = 7
rank mac_init_done = 8
rank _ = 0

module _ (alloc : ℕ → Bool) (attach : Bool) (msg : List ℕ) where
  -- The device answers what is due.
  pub answer : Init → Init
  answer s = (handle_ta_confirm alloc attach (due s.fsm_state) msg s).1

  pub answers : ℕ → Init → Init
  answers zero s = s
  answers (suc n) s = answers n (answer s)

  module _ (plenty : (n : ℕ) → alloc n ≡ true) (some_len : u16 msg 0 % 2 ^ 12 ≢ 0)
      (magic : byte msg 16 ≡ magic_word) where
    advance :
        (s : Init)
        → 1 ≤ rank s.fsm_state
        → rank s.fsm_state < 8
        → counted s.fsm_state s.bb_rf_prog_count ≡ true
        → (rank s.fsm_state < rank (answer s).fsm_state)
          × (counted (answer s).fsm_state (answer s).bb_rf_prog_count ≡ true)
    unfolding answer handle_ta_confirm cfm_dev_config reset read_eeprom cfm_bootup cfm_mac_addr
        set_bands cfm_rf_type cfm_eeprom cfm_reset_mac program_radio cfm_radio_caps finish cfm_bb_rf
        boot send program
    advance s lo hi c = ground (arith, plenty s.allocs, plenty (s.allocs + 1), some_len, magic)

    stay : (s : Init) → s.fsm_state ≡ mac_init_done → (answer s).fsm_state ≡ mac_init_done
    unfolding answer handle_ta_confirm cfm_bb_rf
    stay s e = ground (arith, e)

    stays :
        (n : ℕ) (s : Init) → s.fsm_state ≡ mac_init_done → (answers n s).fsm_state ≡ mac_init_done
    unfolding answers
    stays zero s e = e
    stays (suc n) s e = stays n (answer s) (stay s e)

    last_rank : (x : Fsm) → 8 ≤ rank x → x ≡ mac_init_done
    last_rank x h = ground arith

    -- If the device answers what is due, with a message of some length that carries the magic word,
    -- and buffers are there, then from any state in which the initialisation waits for a
    -- confirmation (with one answer counted while the radio is programmed), as many answers as the
    -- state has steps to go, or more, lead to FSM_MAC_INIT_DONE.
    pub answers_complete :
        (n : ℕ) (s : Init)
        → 8 ≤ n + rank s.fsm_state
        → 1 ≤ rank s.fsm_state
        → counted s.fsm_state s.bb_rf_prog_count ≡ true
        → (answers n s).fsm_state ≡ mac_init_done
    unfolding answers
    answers_complete zero s le lo c = last_rank s.fsm_state (omega (arith, le))
    answers_complete (suc n) s le lo c = elim (dec_lt (rank s.fsm_state) 8) [
      | no ge ↦ stays (suc n) s (last_rank s.fsm_state (omega (arith, ge)))
      | yes lt ↦
          let (up, c') = advance s lo lt c in
          answers_complete n (answer s) (omega (arith, up, le)) (omega (arith, up)) c'
    ]
