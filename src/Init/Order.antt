-- ===== src/Init/Order.antt =====
-- The order of the initialisation (rsi/rsi_91x_mgmt.c), over any sequence of indications and
-- confirmations.
use si91x_rcp_driver.Prelude.{
  ℕ, ◌≡◌, Bool, true, false, not, ◌&&◌, List, [], ◌∷◌, ◌==◌, if◌then◌else◌, arith,
}
use si91x_rcp_driver.Init.State.{
  Fsm, fw_not_loaded, card_not_ready, common_dev_params_sent, boot_params_sent,
  eeprom_read_mac_addr, eeprom_read_rf_type, reset_mac_sent, radio_caps_sent, bb_rf_prog_sent,
  mac_init_done, scan_cfm, Request, common_dev_params, bootup_params, reset_mac, eeprom_read,
  radio_caps, w9116_features, program_bb_rf, Init, send, program,
}
use si91x_rcp_driver.Init.Ready.{
  bit, u32, set_default_parameters, common_ready, ready_not_ready, set_mac, set_efuse, boot,
  ready_params_sent, handle_card_ready,
}
use si91x_rcp_driver.Init.Confirm.{
  SubType, common_dev_config, bootup_params_request, eeprom_read_cfm, reset_mac_req,
  radio_capabilities, bbp_prog_in_ta, cfm_dev_config, reset, read_eeprom, cfm_bootup, cfm_mac_addr,
  set_bands, cfm_rf_type, cfm_eeprom, cfm_reset_mac, program_radio, cfm_radio_caps, finish,
  cfm_bb_rf, handle_ta_confirm,
}

-- The requests that are answered, last one first, up to the features of a 9116 at their head: no
-- state waits for an answer to those.
unfoldable pub answered : List Request → List Request
answered (w9116_features ∷ rs) = answered rs
answered rs = rs

-- What a state waits for an answer to.
abbrev pub awaits : Fsm → Request → Bool
awaits fw_not_loaded r = true
awaits card_not_ready r = true
awaits common_dev_params_sent common_dev_params = true
awaits boot_params_sent bootup_params = true
awaits eeprom_read_mac_addr (eeprom_read len offset) = (len == 11) && (offset == 40)
awaits eeprom_read_rf_type (eeprom_read len offset) = (len == 4) && (offset == 424)
awaits reset_mac_sent reset_mac = true
awaits radio_caps_sent radio_caps = true
awaits bb_rf_prog_sent program_bb_rf = true
awaits mac_init_done r = true
awaits scan_cfm r = true
awaits _ r = false

abbrev pub needs_none : Fsm → Bool
needs_none fw_not_loaded = true
needs_none card_not_ready = true
needs_none mac_init_done = true
needs_none scan_cfm = true
needs_none _ = false

abbrev pub waits_for : Fsm → List Request → Bool
waits_for fsm [] = needs_none fsm
waits_for fsm (r ∷ rs) = awaits fsm r

abbrev pub agrees : Fsm → List Request → Bool
agrees fsm rs = waits_for fsm (answered rs)

-- One answer is counted while the radio is programmed.
abbrev pub counted : Fsm → ℕ → Bool
counted bb_rf_prog_sent n = n == 1
counted _ n = true

-- The states that may follow a state.
abbrev pub may_follow : Fsm → Fsm → Bool
may_follow card_not_ready common_dev_params_sent = true
may_follow common_dev_params_sent boot_params_sent = true
may_follow boot_params_sent eeprom_read_mac_addr = true
may_follow boot_params_sent reset_mac_sent = true
may_follow eeprom_read_mac_addr eeprom_read_rf_type = true
may_follow eeprom_read_rf_type reset_mac_sent = true
may_follow reset_mac_sent radio_caps_sent = true
may_follow radio_caps_sent bb_rf_prog_sent = true
may_follow bb_rf_prog_sent mac_init_done = true
may_follow a card_not_ready = true
may_follow fw_not_loaded fw_not_loaded = true
may_follow common_dev_params_sent common_dev_params_sent = true
may_follow boot_params_sent boot_params_sent = true
may_follow eeprom_read_mac_addr eeprom_read_mac_addr = true
may_follow eeprom_read_rf_type eeprom_read_rf_type = true
may_follow reset_mac_sent reset_mac_sent = true
may_follow radio_caps_sent radio_caps_sent = true
may_follow bb_rf_prog_sent bb_rf_prog_sent = true
may_follow mac_init_done mac_init_done = true
may_follow scan_cfm scan_cfm = true
may_follow a b = false

-- What is kept, from `s` to `t`.
abbrev pub IsKept : Init → Init → Type 0
IsKept s t =
    (may_follow s.fsm_state t.fsm_state ≡ true)
    × (agrees t.fsm_state t.sent ≡ true)
    × (counted t.fsm_state t.bb_rf_prog_count ≡ true)

module _ (alloc : ℕ → Bool) (attach : Bool) (s : Init) (h : agrees s.fsm_state s.sent ≡ true)
    (c : counted s.fsm_state s.bb_rf_prog_count ≡ true) where
  cfm_bb_rf-IsKept : IsKept s (cfm_bb_rf alloc attach s).1
  unfolding cfm_bb_rf finish answered
  cfm_bb_rf-IsKept = ground arith

  cfm_radio_caps-IsKept : IsKept s (cfm_radio_caps alloc attach s).1
  unfolding cfm_radio_caps program_radio program send answered
  cfm_radio_caps-IsKept = ground arith

  cfm_reset_mac-IsKept : IsKept s (cfm_reset_mac alloc attach s).1
  unfolding cfm_reset_mac send answered
  cfm_reset_mac-IsKept = ground arith

  cfm_dev_config-IsKept : IsKept s (cfm_dev_config alloc attach s).1
  unfolding cfm_dev_config boot send answered
  cfm_dev_config-IsKept = ground arith

  cfm_bootup-IsKept : IsKept s (cfm_bootup alloc attach s).1
  unfolding cfm_bootup reset read_eeprom send answered
  cfm_bootup-IsKept = ground arith

  cfm_eeprom-IsKept : (msg : List ℕ) → IsKept s (cfm_eeprom alloc attach msg s).1
  unfolding cfm_eeprom cfm_mac_addr cfm_rf_type set_bands reset read_eeprom send answered
  cfm_eeprom-IsKept msg = ground arith

  common_ready-IsKept :
      (t : Init) → s.fsm_state ≡ card_not_ready → IsKept s (common_ready alloc t).1
  unfolding common_ready set_default_parameters send answered
  common_ready-IsKept t e = ground (arith, e)

  choose :
      (b : Bool) (x y : Bool × Init) → IsKept s x.1 → IsKept s y.1 → IsKept s (if b then x else y).1
  choose true x y hx hy = hx
  choose false x y hx hy = hy

  ready_not_ready-IsKept :
      (msg : List ℕ) → s.fsm_state ≡ card_not_ready → IsKept s (ready_not_ready alloc msg s).1
  unfolding ready_not_ready
  ready_not_ready-IsKept msg e =
      choose (bit msg 15 0 && bit msg 15 1) _ _ (acx (bit msg 15 0)) (common_ready-IsKept _ e)
    where
      acx :
          (b : Bool)
          → IsKept s (record (if b then record s { acx_module = true } else s) {
            common_hal_tx_access = true;
          })
      acx b = ground arith

  boot-IsKept : (t : Init) → s.fsm_state ≡ common_dev_params_sent → IsKept s (boot alloc t).1
  unfolding boot send answered
  boot-IsKept t e = ground (arith, e)

  set_mac-IsKept : (random msg : List ℕ) → IsKept s (set_mac random msg s).1
  unfolding set_mac answered
  set_mac-IsKept random msg = ground arith

  ready_params_sent-IsKept :
      (random msg : List ℕ)
      → s.fsm_state ≡ common_dev_params_sent
      → IsKept s (ready_params_sent alloc random msg s).1
  unfolding ready_params_sent
  ready_params_sent-IsKept random msg e =
      choose (not accepted.0) (false, accepted.1)
        (boot alloc (record efused { usb_buffer_status_reg = u32 msg 8 })) (kept s.is_9116)
        (boot-IsKept (record efused { usb_buffer_status_reg = u32 msg 8 }) e)
    where
      accepted : Bool × Init
      accepted = if s.is_9116 then set_mac random msg s else (true, s)

      efused : Init
      efused = if s.is_9116 then set_efuse msg accepted.1 else accepted.1

      kept : (b : Bool) → IsKept s (if b then set_mac random msg s else (true, s)).1
      kept b = ground (arith, set_mac-IsKept random msg)

  handle_card_ready-IsKept :
      (random msg : List ℕ) → IsKept s (handle_card_ready alloc random msg s).1
  unfolding handle_card_ready
  handle_card_ready-IsKept random msg =
      ground (arith, ready_not_ready-IsKept msg, ready_params_sent-IsKept random msg)

-- One message of the device that the handlers take: its card-ready indication, or a confirmation.
pub data Step (alloc : ℕ → Bool) (s : Init) : Init → Type 0 where
  ready : (random msg : List ℕ) → Step alloc s (handle_card_ready alloc random msg s).1
  confirm :
      (attach : Bool) (sub_type : SubType) (msg : List ℕ)
      → Step alloc s (handle_ta_confirm alloc attach sub_type msg s).1

pub data Reach (alloc : ℕ → Bool) (s : Init) : Init → Type 0 where
  here : Reach alloc s s
  next : {t u : Init} → Reach alloc s t → Step alloc t u → Reach alloc s u

-- In a state that agrees with the last request sent, whatever such message comes, with whatever content
-- and buffers: the state stays, falls back to FSM_CARD_NOT_READY or moves to a successor of the
-- order of initialisation (so FSM_MAC_INIT_DONE is entered only from FSM_BB_RF_PROG_SENT), the new
-- state agrees with the last request sent, and one answer is counted while the radio is programmed.
pub Step-IsKept :
    {alloc : ℕ → Bool} {s t : Init}
    → Step alloc s t
    → agrees s.fsm_state s.sent ≡ true
    → counted s.fsm_state s.bb_rf_prog_count ≡ true
    → IsKept s t
unfolding handle_ta_confirm
Step-IsKept {alloc} {s} (ready random msg) h c =
    handle_card_ready-IsKept alloc true s h c random msg
Step-IsKept {alloc} {s} (confirm attach sub_type msg) h c = by_type sub_type
  where
    by_type : (sub : SubType) → IsKept s (handle_ta_confirm alloc attach sub msg s).1
    by_type common_dev_config = cfm_dev_config-IsKept alloc attach s h c
    by_type bootup_params_request = cfm_bootup-IsKept alloc attach s h c
    by_type eeprom_read_cfm = cfm_eeprom-IsKept alloc attach s h c msg
    by_type reset_mac_req = cfm_reset_mac-IsKept alloc attach s h c
    by_type radio_capabilities = cfm_radio_caps-IsKept alloc attach s h c
    by_type bbp_prog_in_ta = cfm_bb_rf-IsKept alloc attach s h c

-- From a state that agrees with the last request sent, every sequence of card-ready indications and
-- of the six confirmations of the initialisation leads to a state that does: each state waits for the
-- answer to the request sent last (the features of a 9116, whose answer no state waits for, left
-- aside), and one answer is counted while the radio is programmed. The AMPDU indication of the RF
-- evaluation mode is not among the messages.
pub Reach-agrees :
    {alloc : ℕ → Bool} {s t : Init}
    → Reach alloc s t
    → agrees s.fsm_state s.sent ≡ true
    → counted s.fsm_state s.bb_rf_prog_count ≡ true
    → (agrees t.fsm_state t.sent ≡ true) × (counted t.fsm_state t.bb_rf_prog_count ≡ true)
Reach-agrees here h c = (h, c)
Reach-agrees (next r e) h c =
    let (h₁, c₁) = Reach-agrees r h c in let (m, h₂, c₂) = Step-IsKept e h₁ c₁ in (h₂, c₂)
