-- ===== src/Init/Confirm.antt =====
-- The cases of `rsi_handle_ta_confirm` of rsi/rsi_91x_mgmt.c that carry the initialisation on, and
-- no other case. The flag of a result is a status of 0.
use si91x_rcp_driver.Prelude.{
  ℕ, ◌+◌, ◌%◌, ◌^◌, Bool, true, false, List, ◌==◌, if◌then◌else◌, take, drop,
}
use si91x_rcp_driver.Init.State.{
  Fsm, card_not_ready, common_dev_params_sent, boot_params_sent, eeprom_read_mac_addr,
  eeprom_read_rf_type, reset_mac_sent, radio_caps_sent, bb_rf_prog_sent, mac_init_done, band_2ghz,
  band_5ghz, Init, send, program, reset_mac, eeprom_read, radio_caps, w9116_features,
}
use si91x_rcp_driver.Init.Ready.{byte, u16, magic_word, boot}

-- The subtypes of a confirmation that belong to the initialisation; the last one stands for
-- RF_PROG_VALUES_REQUEST and BBP_PROG_IN_TA.
pub data SubType : Type 0 where
  common_dev_config : SubType
  bootup_params_request : SubType
  eeprom_read_cfm : SubType
  reset_mac_req : SubType
  radio_capabilities : SubType
  bbp_prog_in_ta : SubType

-- `attach` is the status of `rsi_mac80211_attach`: whether it is 0.
module _ (alloc : ℕ → Bool) (attach : Bool) where
  unfoldable pub cfm_dev_config : Init → Bool × Init
  cfm_dev_config s = elim (s.fsm_state) [ common_dev_params_sent ↦ boot alloc s | _ ↦ (true, s) ]

  -- `if (rsi_send_reset_mac(common)) goto out; else ...`
  unfoldable pub reset : Init → Bool × Init
  reset s =
      let (done, s₁) = send alloc reset_mac s in
      if done then (true, record s₁ { fsm_state = reset_mac_sent }) else (false, s₁)

  -- `rsi_eeprom_read` for `len` bytes at `offset`, with the state that follows its success.
  unfoldable pub read_eeprom : ℕ → ℕ → Fsm → Init → Bool × Init
  read_eeprom len offset next s =
      let (done, s₁) =
        send alloc (eeprom_read len offset)
          (record s { eeprom_length = len; eeprom_offset = offset }) in
      if done
      then (true, record s₁ { fsm_state = next })
      else (false, record s₁ { fsm_state = card_not_ready })

  -- The length is that of the address, the magic word and the host mode: 6 + 1 + 4.
  unfoldable pub cfm_bootup : Init → Bool × Init
  cfm_bootup s = elim (s.fsm_state) [
    | boot_params_sent ↦
        if s.is_9116
        then reset (record s { num_supp_bands = elim (s.band) [ band_5ghz ↦ 2 | band_2ghz ↦ 1 ] })
        else read_eeprom 11 40 eeprom_read_mac_addr s
    | _ ↦ (true, s)
  ]

  -- A failure to ask for the radio's type is no failure of the handler.
  unfoldable pub cfm_mac_addr : List ℕ → Init → Bool × Init
  cfm_mac_addr msg s =
      let (done, s₁) =
        read_eeprom 4 424 eeprom_read_rf_type (record s { mac_addr = take 6 (drop 21 msg) }) in
      if u16 msg 0 % 2 ^ 12 == 0
      then (false, s)
      else if byte msg 16 == magic_word
      then (true, s₁)
      else (true, record s { fsm_state = card_not_ready })

  -- The last two bits of `msg[17]`.
  unfoldable pub set_bands : List ℕ → Init → Init
  set_bands msg s =
      if byte msg 17 % 4 == 3
      then record s { band = band_5ghz; num_supp_bands = 2 }
      else if byte msg 17 % 4 == 1
      then record s { band = band_2ghz; num_supp_bands = 1 }
      else s

  unfoldable pub cfm_rf_type : List ℕ → Init → Bool × Init
  cfm_rf_type msg s =
      if u16 msg 0 % 2 ^ 12 == 0
      then (false, s)
      else if byte msg 16 == magic_word
      then reset (set_bands msg s)
      else (true, record s { fsm_state = card_not_ready })

  unfoldable pub cfm_eeprom : List ℕ → Init → Bool × Init
  cfm_eeprom msg s = elim (s.fsm_state) [
    | eeprom_read_mac_addr ↦ cfm_mac_addr msg s
    | eeprom_read_rf_type ↦ cfm_rf_type msg s
    | _ ↦ (true, s)
  ]

  unfoldable pub cfm_reset_mac : Init → Bool × Init
  cfm_reset_mac s = elim (s.fsm_state) [
    | reset_mac_sent ↦
        let (done, s₁) = send alloc radio_caps s in
        if done then (true, record s₁ { fsm_state = radio_caps_sent }) else (false, s₁)
    | _ ↦ (true, s)
  ]

  -- `rsi_program_bb_rf` and what follows it.
  unfoldable pub program_radio : Init → Bool × Init
  program_radio s =
      let (done, s₁) = program alloc s in
      if done then (true, record s₁ { fsm_state = bb_rf_prog_sent }) else (false, s₁)

  unfoldable pub cfm_radio_caps : Init → Bool × Init
  cfm_radio_caps s = elim (s.fsm_state) [
    | radio_caps_sent ↦
        let s₁ = record s { rf_reset = true } in
        let (done, s₂) = if s.is_9116 then send alloc w9116_features s₁ else (true, s₁) in
        if done then program_radio s₂ else (false, s₂)
    | _ ↦ (true, s)
  ]

  -- `if (common->reinit_hw) ... else ...`
  unfoldable pub finish : Init → Bool × Init
  finish s =
      if s.reinit_hw
      then (
        true,
        record s { hw_data_qs_blocked = false; completed = s.completed + 1; reinit_hw = false },
      )
      else if s.rf_eval
      then (true, s)
      else (attach, record s { attached = s.attached + 1 })

  -- `bb_rf_prog_count` is a `u8`.
  unfoldable pub cfm_bb_rf : Init → Bool × Init
  cfm_bb_rf s = elim (s.fsm_state) [
    | bb_rf_prog_sent ↦
        let count = (s.bb_rf_prog_count + 255) % 2 ^ 8 in
        let s₁ = record s { bb_rf_prog_count = count } in
        if count == 0 then finish (record s₁ { fsm_state = mac_init_done }) else (true, s₁)
    | _ ↦ (true, s)
  ]

  unfoldable pub handle_ta_confirm : SubType → List ℕ → Init → Bool × Init
  handle_ta_confirm common_dev_config msg s = cfm_dev_config s
  handle_ta_confirm bootup_params_request msg s = cfm_bootup s
  handle_ta_confirm eeprom_read_cfm msg s = cfm_eeprom msg s
  handle_ta_confirm reset_mac_req msg s = cfm_reset_mac s
  handle_ta_confirm radio_capabilities msg s = cfm_radio_caps s
  handle_ta_confirm bbp_prog_in_ta msg s = cfm_bb_rf s
