-- ===== src/Init/Ready.antt =====
-- `rsi_handle_card_ready` of rsi/rsi_91x_mgmt.c. A message is the list of its bytes; what lies past
-- its end is 0 here.
use si91x_rcp_driver.Prelude.{
  ℕ, ◌+◌, ◌*◌, ◌/◌, ◌%◌, ◌^◌, Bool, true, false, not, ◌&&◌, ◌||◌, List, ◌∷◌, ltb, ◌==◌,
  if◌then◌else◌, get_or, take, drop,
}
use si91x_rcp_driver.Init.State.{
  card_not_ready, common_dev_params_sent, boot_params_sent, band_2ghz, band_5ghz, Init, send,
  common_dev_params, bootup_params,
}

abbrev pub byte : List ℕ → ℕ → ℕ
byte msg i = get_or msg i 0

-- `msg[i] & BIT(n)`
abbrev pub bit : List ℕ → ℕ → ℕ → Bool
bit msg i n = byte msg i / 2 ^ n % 2 == 1

abbrev pub u16 : List ℕ → ℕ → ℕ
u16 msg i = byte msg i + 2 ^ 8 * byte msg (i + 1)

abbrev pub u32 : List ℕ → ℕ → ℕ
u32 msg i = u16 msg i + 2 ^ 16 * u16 msg (i + 2)

abbrev pub magic_word : ℕ
magic_word = 0x5A

-- `rsi_set_default_parameters`, of the fields kept here
unfoldable pub set_default_parameters : Init → Init
set_default_parameters s = record s { band = band_2ghz; fsm_state = card_not_ready }

-- The common part, from `Card ready indication from Common HAL` on.
unfoldable pub common_ready : (alloc : ℕ → Bool) → Init → Bool × Init
common_ready alloc s =
    let (done, s₁) =
      send alloc common_dev_params
        (set_default_parameters (record s { common_hal_tx_access = true })) in
    if done then (true, record s₁ { fsm_state = common_dev_params_sent }) else (false, s₁)

-- The case FSM_CARD_NOT_READY.
unfoldable pub ready_not_ready : (alloc : ℕ → Bool) → List ℕ → Init → Bool × Init
ready_not_ready alloc msg s =
    let s₁ = if bit msg 15 0 then record s { acx_module = true } else s in
    let s₂ = if bit msg 15 2 then record s₁ { is_915 = true } else s₁ in
    if bit msg 15 0 && bit msg 15 1
    then (false, record s₁ { common_hal_tx_access = true })
    else common_ready alloc s₂

-- `random` is what `get_random_bytes` gives. The flag tells that the address is accepted.
unfoldable pub set_mac : (random : List ℕ) → List ℕ → Init → Bool × Init
set_mac random msg s =
    let addr = take 6 (drop 20 msg) in
    let s₁ = record s { mac_addr = addr } in
    if not (byte msg 16 == magic_word) || (byte msg 21 == 0)
    then (true, record s { mac_addr = 0x00 ∷ 0x23 ∷ 0xa7 ∷ take 3 random; band = band_5ghz })
    else if (byte msg 23 == 0xff) && ((byte msg 24 == 0xff) && ltb 0xfc (byte msg 25))
    then (false, s₁)
    else (true, record s₁ { band = if byte msg 27 == 0x03 then band_5ghz else band_2ghz })

-- FRAME_DESC_SZ is 16, and the offsets are those of rsi/rsi_main.h.
unfoldable pub set_efuse : List ℕ → Init → Init
set_efuse msg s =
    if (byte msg 16 == magic_word) && bit msg 7 0
    then record s {
      efuse_map = record {
        efuse_map_version = byte msg 28;
        module_version = byte msg 30;
        module_part_no = u16 msg 31;
        mfg_sw_version = byte msg 34;
        module_type = byte msg 35;
        chip_version = byte msg 36;
        m4sb_cert_en = byte msg 37 / 2 ^ 3 % 2 * 2 ^ 3;
        mfg_sw_subversion = byte msg 39;
        chip_id_no = u32 msg 40;
        sdb_mode = u16 msg 44;
      };
    }
    else s

-- `if (rsi_load_bootup_params(common)) ... else ...`, as the card-ready indication and the first
-- confirmation have it.
unfoldable pub boot : (alloc : ℕ → Bool) → Init → Bool × Init
boot alloc s =
    let (done, s₁) = send alloc bootup_params s in
    if done
    then (true, record s₁ { fsm_state = boot_params_sent })
    else (false, record s₁ { fsm_state = card_not_ready })

-- The case FSM_COMMON_DEV_PARAMS_SENT.
unfoldable pub ready_params_sent :
    (alloc : ℕ → Bool) → (random : List ℕ) → List ℕ → Init → Bool × Init
ready_params_sent alloc random msg s =
    let (accepted, s₁) = if s.is_9116 then set_mac random msg s else (true, s) in
    let s₂ = if s.is_9116 then set_efuse msg s₁ else s₁ in
    if not accepted
    then (false, s₁)
    else boot alloc (record s₂ { usb_buffer_status_reg = u32 msg 8 })

-- The flag is a status of 0.
unfoldable pub handle_card_ready :
    (alloc : ℕ → Bool) → (random : List ℕ) → List ℕ → Init → Bool × Init
handle_card_ready alloc random msg s = elim (s.fsm_state) [
  | card_not_ready ↦ ready_not_ready alloc msg s
  | common_dev_params_sent ↦ ready_params_sent alloc random msg s
  | _ ↦ (false, s)
]
