-- ===== src/Tests/Init.antt =====
-- The initialisation theorems at a device of each kind.
use si91x_rcp_driver.Prelude.{
  ℕ, ◌≡◌, refl, Bool, true, false, List, [], ◌∷◌, ◌++◌, replicate, arith,
}
use si91x_rcp_driver.Init.State.{
  card_not_ready, boot_params_sent, mac_init_done, band_2ghz, EfuseMap, Init, bootup_params,
  common_dev_params,
}
use si91x_rcp_driver.Init.Ready.{handle_card_ready}
use si91x_rcp_driver.Init.Confirm.{common_dev_config, handle_ta_confirm}
use si91x_rcp_driver.Init.Order.{
  answered, Reach, ready, confirm, here, next, agrees, counted, Reach-agrees,
}
use si91x_rcp_driver.Init.Advance.{answers, answers_complete}

abbrev no_map : EfuseMap
no_map = record {
  efuse_map_version = 0;
  module_version = 0;
  module_part_no = 0;
  mfg_sw_version = 0;
  module_type = 0;
  chip_version = 0;
  m4sb_cert_en = 0;
  mfg_sw_subversion = 0;
  chip_id_no = 0;
  sdb_mode = 0;
}

abbrev fresh : Init
fresh = record {
  fsm_state = card_not_ready;
  band = band_2ghz;
  num_supp_bands = 1;
  mac_addr = [];
  rf_reset = false;
  bb_rf_prog_count = 0;
  hw_data_qs_blocked = false;
  reinit_hw = false;
  rf_eval = false;
  is_9116 = true;
  eeprom_length = 0;
  eeprom_offset = 0;
  common_hal_tx_access = false;
  acx_module = false;
  is_915 = false;
  usb_buffer_status_reg = 0;
  efuse_map = no_map;
  sent = [];
  allocs = 0;
  attached = 0;
  completed = 0;
}

abbrev plenty : ℕ → Bool
plenty n = true

-- The state after the card is ready, and the one after the first confirmation.
abbrev started : Init
started = (handle_card_ready plenty [] (replicate 16 0) fresh).1

abbrev booted : Init
booted = (handle_ta_confirm plenty true common_dev_config [] started).1

started_up : Reach plenty fresh booted
started_up = next (next here (ready [] (replicate 16 0))) (confirm true common_dev_config [])

Reach-agrees_example :
    (agrees booted.fsm_state booted.sent ≡ true)
    × (counted booted.fsm_state booted.bb_rf_prog_count ≡ true)
unfolding answered
Reach-agrees_example = Reach-agrees started_up refl refl

abbrev waiting : Init
waiting = record fresh {
  fsm_state = boot_params_sent;
  sent = bootup_params ∷ common_dev_params ∷ [];
  is_9116 = false;
}

abbrev reply : List ℕ
reply = 1 ∷ replicate 15 0 ++ 0x5A ∷ 3 ∷ []

answers_complete_example : (answers plenty true reply 6 waiting).fsm_state ≡ mac_init_done
answers_complete_example =
    answers_complete plenty true reply (λ n. refl) (λ e. omega (arith, e)) refl 6 waiting
      (omega arith) (omega arith) refl
