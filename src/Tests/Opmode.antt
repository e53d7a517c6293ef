-- ===== src/Tests/Opmode.antt =====
-- Drivers with all five instances in use.
use si91x_rcp_driver.Prelude.{
  ℕ, ◌≤◌, ◌≡◌, ◌≢◌, refl, true, false, none, some, ◌==◌, if◌then◌else◌, update, arith,
}
use si91x_rcp_driver.Opmode.{
  Build, valid, rsi_validate_oper_mode, Adapter, Instances, take_instance, drv_instance_set,
  find_instance, try_instance, rsi_opermode_instances, rsi_91x_deinit, new_adapter, coex_mode_of,
  probe,
}
use si91x_rcp_driver.Opmode.Bits.{takes, rsi_validate_oper_mode-takes}
use si91x_rcp_driver.Opmode.Instances.{rsi_91x_deinit-rsi_opermode_instances, probe_clash}

abbrev multi_build : Build
multi_build = record {
  purism = false;
  bt_alone = false;
  coex = true;
  zigb = false;
  multi = true;
  caracalla = false;
}

-- An access point alone is a valid mode, and the coexistence build makes a station alone of it.
access_point_valid : rsi_validate_oper_mode multi_build 2 ≡ valid
unfolding rsi_validate_oper_mode
access_point_valid = refl

access_point_lost : coex_mode_of multi_build true 2 ≡ (1, 1)
unfolding coex_mode_of
access_point_lost = refl

rsi_validate_oper_mode-takes_example : rsi_validate_oper_mode multi_build 13 ≡ takes multi_build 13
rsi_validate_oper_mode-takes_example = rsi_validate_oper_mode-takes multi_build 13

-- One mode is given, station with both kinds of Bluetooth.
abbrev one_mode : ℕ → ℕ
one_mode i = if i == 0 then 1 else if i == 1 then 13 else 0xff

abbrev first_used : Instances
first_used i = if i == 1 then 13 else 0

abbrev second : Adapter
second = record { dev_oper_mode = update one_mode 2 13; oper_mode = 13; drv_instance_index = 2 }

second_instance :
    rsi_opermode_instances multi_build (new_adapter one_mode) first_used
    ≡ some (second, drv_instance_set 2 13 first_used)
unfolding rsi_opermode_instances find_instance try_instance take_instance rsi_validate_oper_mode
second_instance = refl

second_gives_back :
    (first_used 2 ≡ 0)
    × ((j : ℕ) → rsi_91x_deinit second (drv_instance_set 2 13 first_used) j ≡ first_used j)
second_gives_back =
    rsi_91x_deinit-rsi_opermode_instances multi_build (new_adapter one_mode) second first_used
      (drv_instance_set 2 13 first_used) second_instance

abbrev five_used : Instances
five_used i = 13

five_in_use : (i : ℕ) → 1 ≤ i → i ≤ 5 → five_used i ≢ 0
five_in_use i lo hi = omega arith

one_mode_valid : rsi_validate_oper_mode multi_build (one_mode 1) ≡ valid
unfolding rsi_validate_oper_mode
one_mode_valid = refl

probe_clash_example :
    ((probe multi_build one_mode five_used).0 ≡ none)
    × ((probe multi_build one_mode five_used).1 ≡ update five_used 1 0)
    × ((probe multi_build one_mode (probe multi_build one_mode five_used).1).0
        ≡ some (record (new_adapter one_mode) { oper_mode = 13; drv_instance_index = 1 }))
probe_clash_example =
    probe_clash multi_build one_mode one_mode five_used five_in_use (omega arith) one_mode_valid
