-- ===== src/Init/State.antt =====
-- The state that the initialisation of the device goes through (rsi/rsi_main.h), and the requests
-- of rsi/rsi_91x_mgmt.c that drive it.
use si91x_rcp_driver.Prelude.{ℕ, ◌+◌, Bool, true, false, List, ◌∷◌, if◌then◌else◌}

-- The values of `fsm_state`
pub data Fsm : Type 0 where
  fw_not_loaded : Fsm
  card_not_ready : Fsm
  common_dev_params_sent : Fsm
  boot_params_sent : Fsm
  eeprom_read_mac_addr : Fsm
  eeprom_read_rf_type : Fsm
  reset_mac_sent : Fsm
  radio_caps_sent : Fsm
  bb_rf_prog_sent : Fsm
  mac_init_done : Fsm
  scan_cfm : Fsm

pub data Band : Type 0 where
  band_2ghz : Band
  band_5ghz : Band

-- A management frame queued for the device, by the function that builds it. Of the contents, only
-- what `rsi_eeprom_read` asks for is kept.
pub data Request : Type 0 where
  common_dev_params : Request
  bootup_params : Request
  reset_mac : Request
  eeprom_read : (len offset : ℕ) → Request
  radio_caps : Request
  w9116_features : Request
  program_bb_rf : Request

-- `struct efuse_map`
pub record EfuseMap : Type 0 where
  pub efuse_map_version : ℕ
  pub module_version : ℕ
  pub module_part_no : ℕ
  pub mfg_sw_version : ℕ
  pub module_type : ℕ
  pub chip_version : ℕ
  pub m4sb_cert_en : ℕ
  pub mfg_sw_subversion : ℕ
  pub chip_id_no : ℕ
  pub sdb_mode : ℕ

-- The fields of `struct rsi_common` and `struct rsi_hw` that the initialisation uses. `rf_eval` is
-- `driver_mode == RF_EVAL_MODE_ON`, `is_9116` DEV_MODEL_9116. `sent` holds the requests queued, last
-- one first, `allocs` how many buffers were asked for, `attached` the calls of `rsi_mac80211_attach`,
-- and `completed` those of `complete(&common->wlan_init_completion)`, with the queues woken.
pub record Init : Type 0 where
  pub fsm_state : Fsm
  pub band : Band
  pub num_supp_bands : ℕ
  pub mac_addr : List ℕ
  pub rf_reset : Bool
  pub bb_rf_prog_count : ℕ
  pub hw_data_qs_blocked : Bool
  pub reinit_hw : Bool
  pub rf_eval : Bool
  pub is_9116 : Bool
  pub eeprom_length : ℕ
  pub eeprom_offset : ℕ
  pub common_hal_tx_access : Bool
  pub acx_module : Bool
  pub is_915 : Bool
  pub usb_buffer_status_reg : ℕ
  pub efuse_map : EfuseMap
  pub sent : List Request
  pub allocs : ℕ
  pub attached : ℕ
  pub completed : ℕ

-- The builders allocate the frame first, and fail only if they cannot: `alloc n` says whether the
-- `n`-th buffer is there. The flag is a status of 0.
unfoldable pub send : (alloc : ℕ → Bool) → Request → Init → Bool × Init
send alloc r s =
    if alloc s.allocs
    then (true, record s { sent = r ∷ s.sent; allocs = s.allocs + 1 })
    else (false, record s { allocs = s.allocs + 1 })

-- `rsi_program_bb_rf` also takes back the reset of the radio that it asks for, and counts the answer
-- that is to come.
unfoldable pub program : (alloc : ℕ → Bool) → Init → Bool × Init
program alloc s =
    let (done, s₁) = send alloc program_bb_rf s in
    if done then (true, record s₁ { rf_reset = false; bb_rf_prog_count = 1 }) else (false, s₁)
