-- ===== src/Rates.antt =====
-- The fixed rate of the driver: `rsi_get_rate_code` and `rsi_mac80211_set_rate_mask` of
-- rsi/rsi_91x_mac80211.c.
pub mod Chosen
use Prim.Native.Nat.{bit_and}
use si91x_rcp_driver.Prelude.{
  ℕ, zero, suc, ◌+◌, ◌-◌, ◌*◌, ◌/◌, ◌%◌, ◌^◌, Bool, true, false, not, ◌&&◌, ◌||◌, Option, none,
  some, List, [], ◌∷◌, ltb, ◌==◌, if◌then◌else◌, get_elem?,
}

-- The rates by their index: `hw_value` of `rsi_rates`.
abbrev pub rsi_rates : List ℕ
rsi_rates = 0x0 ∷ 0x2 ∷ 0x4 ∷ 0x6 ∷ 0x8b ∷ 0x8f ∷ 0x8a ∷ 0x8e ∷ 0x89 ∷ 0x8d ∷ 0x88 ∷ 0x8c ∷ []

-- MCS_RATE_MAP and HE_MCS_RATE_MAP, HE_DISABLE, the maps of both bands, and the mark of an error.
abbrev pub rate_map : ℕ
rate_map = 0xff

abbrev pub he_disable : ℕ
he_disable = 0

abbrev pub legacy_map : (band_5ghz : Bool) → ℕ
legacy_map true = 0xff
legacy_map false = 0xfff

abbrev pub no_code : ℕ
no_code = 0xFF

abbrev pub rsi_rate_2 : ℕ
rsi_rate_2 = 2

pub data RateType : Type 0 where
  legacy_rate mcs_rate he_mcs_rate : RateType

abbrev pub bit_set : ℕ → ℕ → Bool
bit_set bitmap i = bitmap / 2 ^ i % 2 == 1

-- The loop for the first bit, with `left` indices to go below 16.
unfoldable pub first_bit : (left i : ℕ) → (bitmap : ℕ) → ℕ
first_bit zero i bitmap = i
first_bit (suc left) i bitmap =
    let rest = first_bit left (i + 1) bitmap in if bit_set bitmap i then i else rest

-- The loop for the highest bit from `n - 1` down; `legacy` stays where there is none.
unfoldable pub highest_bit : (n : ℕ) → ℕ → ℕ
highest_bit zero legacy = legacy
highest_bit (suc n) legacy =
    let rest = highest_bit n legacy in if bit_set legacy n then 2 ^ n else rest

-- What `rsi_mac80211_set_rate_mask` works on.
pub record Rates : Type 0 where
  pub fixedrate_mask : ℕ  -- of the band in use
  pub fixed_rate_en : Bool
  pub fixed_rate : ℕ

-- What is asked for (`legacy` has 16 bits, `he_mcs` too, `mcs` 8), and what the driver is at: `assoc` is BSS_ASSOC, `ax` is `_11ax_enabled`, and
-- `japan_14` tells whether the country is Japan and the channel 14.
pub record Mask : Type 0 where
  pub mcs : ℕ
  pub legacy : ℕ
  pub he_mcs : ℕ
  pub band_5ghz : Bool
  pub assoc : Bool
  pub ax : Bool
  pub japan_14 : Bool

-- The frame that tells the device is sent (`update`), or the call ends before it.
pub data Outcome : Type 0 where
  update : Rates → Outcome
  invalid : Rates → Outcome  -- -EINVAL
  ignored : Rates → Outcome  -- 0, and no frame
  past : Outcome  -- a read behind the end of a table

unfoldable pub enable_auto_rate : Mask → Bool
enable_auto_rate k =
    k.mcs == rate_map
    && (k.legacy == legacy_map k.band_5ghz && (k.he_mcs == rate_map || k.he_mcs == he_disable))

-- From the check of the code on.
unfoldable pub fix_rate : Mask → Option ℕ → Rates → Outcome
fix_rate k none s = past
fix_rate k (some rate) s =
    if rate == no_code
    then invalid s
    else if k.japan_14 && ltb rsi_rate_2 rate
    then ignored s
    else update (record s { fixed_rate_en = true; fixed_rate = rate })

-- `mcs_rates` is the table `rsi_mcsrates`, which other code writes to, and `he_rates` is the table
-- `rsi_he_rates` with `rate_field_params` in each entry. `none` is a read behind the end of a table.
module _ (mcs_rates he_rates : List ℕ) where
  unfoldable pub rsi_get_rate_code : (bitmap : ℕ) → (band_5ghz : Bool) → RateType → Option ℕ
  rsi_get_rate_code bitmap band_5ghz mcs_rate =
      if bit_and bitmap (bitmap - 1) == 0
      then get_elem? mcs_rates (first_bit 16 0 bitmap)
      else some no_code
  rsi_get_rate_code bitmap band_5ghz he_mcs_rate =
      if bit_and bitmap (bitmap - 1) == 0
      then get_elem? he_rates (first_bit 16 0 bitmap)
      else some no_code
  rsi_get_rate_code bitmap band_5ghz legacy_rate =
      if bit_and bitmap (bitmap - 1) == 0
      then get_elem? rsi_rates (first_bit 16 0 bitmap + (if band_5ghz then 4 else 0))
      else some no_code

  unfoldable pub choose_rate : Mask → Rates → Outcome
  choose_rate k s =
      if not (k.mcs == rate_map)
      then fix_rate k (rsi_get_rate_code k.mcs k.band_5ghz mcs_rate) s
      else if k.ax && not (k.he_mcs == rate_map)
      then fix_rate k (rsi_get_rate_code k.he_mcs k.band_5ghz he_mcs_rate) s
      else if not k.ax && (not (k.he_mcs == rate_map) && not (k.he_mcs == he_disable))
      then invalid s
      else fix_rate k (rsi_get_rate_code (highest_bit 12 k.legacy) k.band_5ghz legacy_rate) s

  unfoldable pub rsi_mac80211_set_rate_mask : Mask → Rates → Outcome
  rsi_mac80211_set_rate_mask k s =
      if not k.assoc
      then invalid s
      else (let s₁ = record s { fixedrate_mask = 0 } in
          if enable_auto_rate k
          then update (record s₁ { fixed_rate_en = false })
          else choose_rate k s₁)
