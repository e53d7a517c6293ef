-- ===== src/Opmode.antt =====
-- The operating modes: `rsi_validate_oper_mode`, `rsi_opermode_instances` and the choice of the
-- coexistence mode in `rsi_hal_device_init` of rsi/rsi_91x_hal.c, and the instance that
-- `rsi_91x_deinit` of rsi/rsi_91x_main.c gives back.
pub mod Bits
pub mod Instances
use si91x_rcp_driver.Prelude.{
  ℕ, zero, suc, ◌+◌, Bool, true, false, not, ◌&&◌, ◌||◌, Option, none, some, ltb, ◌==◌, update,
  if◌then◌else◌,
}

-- The flags of a build: CONFIG_RS9116_PURISM, CONFIG_RSI_BT_ALONE, CONFIG_RSI_COEX_MODE,
-- CONFIG_RSI_ZIGB, CONFIG_RSI_MULTI_MODE and CONFIG_CARACALLA_BOARD.
pub record Build : Type 0 where
  pub purism : Bool
  pub bt_alone : Bool
  pub coex : Bool
  pub zigb : Bool
  pub multi : Bool
  pub caracalla : Bool

-- 0, -EINVAL and 0xFF
pub data Verdict : Type 0 where
  valid : Verdict
  invalid : Verdict
  use_first : Verdict

abbrev pub accept_if : Bool → Verdict
accept_if true = valid
accept_if false = invalid

-- The groups of cases: DEV_OPMODE_WIFI_ALONE, _AP_ALONE, _CONCURRENT_MODE; DEV_OPMODE_BT_ALONE,
-- _BT_LE_ALONE, _BT_DUAL; those of Wi-Fi with Bluetooth; those with Zigbee.
abbrev pub is_wifi : ℕ → Bool
is_wifi m = m == 1 || (m == 2 || m == 3)

abbrev pub is_bt : ℕ → Bool
is_bt m = m == 4 || (m == 8 || m == 12)

abbrev pub is_both : ℕ → Bool
is_both m = m == 5 || (m == 6 || (m == 9 || (m == 10 || (m == 13 || m == 14))))

abbrev pub is_zigb : ℕ → Bool
is_zigb m = m == 16 || (m == 17 || (m == 32 || m == 48))

unfoldable pub rsi_validate_oper_mode : Build → ℕ → Verdict
rsi_validate_oper_mode b m =
    if b.purism
    then accept_if (m == 13 || m == 14)
    else if is_wifi m
    then accept_if (not b.bt_alone)
    else if is_bt m
    then accept_if b.bt_alone
    else if is_both m
    then accept_if b.coex
    else if is_zigb m
    then accept_if (b.coex && (b.zigb && not b.multi))
    else if b.multi && m == 0xFF
    then use_first
    else invalid

-- The modes of the module parameter by their position, from 1 on (0 holds their number), and what
-- `rsi_opermode_instances` notes; 0 is what a new adapter holds.
pub record Adapter : Type 0 where
  pub dev_oper_mode : ℕ → ℕ
  pub oper_mode : ℕ
  pub drv_instance_index : ℕ

-- The mode of each instance, from 1 on; 0 where it is free.
abbrev pub Instances : Type 0
Instances = ℕ → ℕ

abbrev pub max_instances : ℕ
max_instances = 5

-- `DRV_INSTANCE_SET`
unfoldable pub drv_instance_set : ℕ → ℕ → Instances → Instances
drv_instance_set x mode s = update s (if x == 0 then 1 else x) mode

-- What is left to do once the `i`-th instance is found to be free; `none` is -EINVAL.
unfoldable pub take_instance : ℕ → Adapter → Instances → Option (Adapter × Instances)
take_instance i a s =
    let mode = a.dev_oper_mode i in
    some (record a { oper_mode = mode; drv_instance_index = i }, drv_instance_set i mode s)

-- The instance that `rsi_91x_deinit` gives back.
unfoldable pub rsi_91x_deinit : Adapter → Instances → Instances
rsi_91x_deinit a s = drv_instance_set a.drv_instance_index 0 s

-- A new adapter, with the modes of the module parameter.
abbrev pub new_adapter : (ℕ → ℕ) → Adapter
new_adapter modes = record { dev_oper_mode = modes; oper_mode = 0; drv_instance_index = 0 }

-- `oper_mode` and `coex_mode` after the switch of `rsi_hal_device_init`.
unfoldable pub coex_mode_of : Build → (is_9116 : Bool) → ℕ → ℕ × ℕ
coex_mode_of b is_9116 m =
    if not (b.coex || (b.bt_alone || b.zigb))
    then (m, 1)
    else if is_bt m || (m == 5 || (m == 9 || m == 13))
    then (m, 2)
    else if m == 6 || (m == 10 || m == 14)
    then (m, if is_9116 then 2 else 4)
    else if m == 1
    then (m, 1)
    else if m == 16 || m == 17
    then (m, 3)
    else if m == 32
    then (m, 6)
    else if m == 48
    then (m, 7)
    else if b.caracalla && b.purism
    then (13, 2)
    else (1, 1)

module _ (b : Build) where
  unfoldable pub try_instance : ℕ → Adapter → Instances → Option (Adapter × Instances)
  try_instance i a s = elim (rsi_validate_oper_mode b (a.dev_oper_mode i)) [
    | invalid ↦ none
    | valid ↦ take_instance i a s
    | use_first ↦
        take_instance i (record a { dev_oper_mode = update a.dev_oper_mode i (a.dev_oper_mode 1) })
          s
  ]

  -- The loop, with `left` instances to go from `i` on.
  unfoldable pub find_instance : (left i : ℕ) → Adapter → Instances → Option (Adapter × Instances)
  find_instance zero i a s = none
  find_instance (suc left) i a s =
      let rest = find_instance left (i + 1) a s in if s i == 0 then try_instance i a s else rest

  unfoldable pub rsi_opermode_instances : Adapter → Instances → Option (Adapter × Instances)
  rsi_opermode_instances a s =
      if ltb max_instances (a.dev_oper_mode 0) then none else find_instance max_instances 1 a s

  -- A probe, up to its first call that may fail: an adapter that gets no instance is freed by
  -- `rsi_91x_deinit`, which gives back the instance that the adapter names.
  unfoldable pub probe : (dev_oper_mode : ℕ → ℕ) → Instances → Option Adapter × Instances
  probe modes s = elim (rsi_opermode_instances (new_adapter modes) s) [
    | none ↦ (none, rsi_91x_deinit (new_adapter modes) s)
    | some (a', s') ↦ (some a', s')
  ]
