-- ===== src/Tests/Rates.antt =====
-- Masks of rates for a station on 5 GHz.
use si91x_rcp_driver.Prelude.{◌≡◌, refl, true, false, [], ◌∷◌}
use si91x_rcp_driver.Rates.{
  first_bit, highest_bit, Rates, Mask, invalid, past, enable_auto_rate, rsi_get_rate_code,
  choose_rate, fix_rate, rsi_mac80211_set_rate_mask,
}

abbrev automatic : Rates
automatic = record { fixedrate_mask = 3; fixed_rate_en = false; fixed_rate = 0 }

-- The rates of 6, 12 and 24 Mbps.
abbrev three_rates : Mask
three_rates = record {
  mcs = 0xff;
  legacy = 0x15;
  he_mcs = 0xff;
  band_5ghz = true;
  assoc = true;
  ax = false;
  japan_14 = false;
}

-- Two MCS rates at once have no code.
two_mcs_rates :
    rsi_mac80211_set_rate_mask (0x100 ∷ 0x101 ∷ []) [] (record three_rates { mcs = 3 }) automatic
    ≡ invalid (record automatic { fixedrate_mask = 0 })
unfolding rsi_mac80211_set_rate_mask choose_rate fix_rate rsi_get_rate_code first_bit
    enable_auto_rate
two_mcs_rates = refl

-- An empty mask of legacy rates leads behind the end of the table.
no_rates : rsi_mac80211_set_rate_mask [] [] (record three_rates { legacy = 0 }) automatic ≡ past
unfolding rsi_mac80211_set_rate_mask choose_rate fix_rate rsi_get_rate_code first_bit highest_bit
    enable_auto_rate
no_rates = refl
