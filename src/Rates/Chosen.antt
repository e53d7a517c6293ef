-- ===== src/Rates/Chosen.antt =====
-- Which rate is fixed (rsi/rsi_91x_mac80211.c).
use Prim.Native.Nat.{bit_and}
use si91x_rcp_driver.Prelude.{
  ℕ, zero, suc, ◌-◌, ◌*◌, ◌^◌, ◌≤◌, ◌<◌, ◌≡◌, ◌⊎◌, refl, Bool, true, false, not, ◌&&◌, ◌||◌, none,
  some, List, ltb, leb, ◌==◌, get_elem?, length, [], ◌∷◌, arith, get_or, ==_iff,
}
use si91x_rcp_driver.Rates.{
  rsi_rates, rate_map, he_disable, no_code, first_bit, highest_bit, Rates, Mask, past,
  rsi_get_rate_code, enable_auto_rate, fix_rate, choose_rate, rsi_mac80211_set_rate_mask,
}

-- The index of the highest bit of a number below 4096, found from below.
top : ℕ → ℕ
top n = first_bit 16 0 (highest_bit 12 n)

-- The highest bit stays alone, and it is the one of the greatest power of two in the number.
is_top : ℕ → Bool
unfolding top first_bit highest_bit
is_top n =
    n == 0
    || (bit_and (highest_bit 12 n) (highest_bit 12 n - 1) == 0
        && (ltb (top n) 12
            && ((not (ltb n 256) || ltb (top n) 8)
                && (leb (2 ^ top n) n && ltb n (2 * 2 ^ top n)))))

-- What the table says of one number.
abbrev Top : ℕ → Type 0
Top n =
    ((bit_and (highest_bit 12 n) (highest_bit 12 n - 1) == 0) ≡ true)
    × (top n < 12)
    × ((not (ltb n 256) || ltb (top n) 8) ≡ true)
    × (2 ^ top n ≤ n)
    × (n < 2 * 2 ^ top n)

-- The entries of the table of rates are there, and none is the mark of an error.
is_code : ℕ → Bool
is_code i = elim (get_elem? rsi_rates i) [
  | none ↦ false
  | some r ↦ r == get_or rsi_rates i 0 && not (r == no_code)
]

-- No rate of 11ax is asked for.
abbrev pub NoHe : Mask → Type 0
NoHe k = (k.he_mcs ≡ rate_map) ⊎ ((k.ax ≡ false) × (k.he_mcs ≡ he_disable))

-- An entry behind the end.
behind_end : (xs : List ℕ) (i : ℕ) → length xs ≤ i → get_elem? xs i ≡ none
behind_end [] i le = refl
behind_end (x ∷ xs) zero le = absurd (omega arith)
behind_end (x ∷ xs) (suc i) le = behind_end xs i (omega arith)

-- A fixed legacy rate in 11ax mode, for a station that is associated, with all MCS rates in the mask
-- and 11ax rates disabled (`he_mcs` is 0): the driver looks for an 11ax rate with an empty mask, and
-- reads behind the end of its table of nine.
pub rsi_mac80211_set_rate_mask_past :
    (mcs_rates he_rates : List ℕ) (k : Mask) (s : Rates)
    → length he_rates ≡ 9
    → k.assoc ≡ true
    → k.ax ≡ true
    → k.mcs ≡ rate_map
    → k.he_mcs ≡ he_disable
    → enable_auto_rate k ≡ false
    → rsi_mac80211_set_rate_mask mcs_rates he_rates k s ≡ past
unfolding rsi_mac80211_set_rate_mask choose_rate fix_rate rsi_get_rate_code first_bit
    enable_auto_rate
rsi_mac80211_set_rate_mask_past mcs_rates he_rates k s nine assoc ax mcs he auto =
    let all_mcs : (k.mcs == rate_map) ≡ true = (==_iff k.mcs rate_map).1 mcs in
    let outside = behind_end he_rates 16 (omega arith) in
    rw assoc (rw auto (rw all_mcs (rw ax (rw he (rw outside refl)))))
