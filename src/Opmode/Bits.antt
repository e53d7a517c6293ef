-- ===== src/Opmode/Bits.antt =====
-- Which operating modes a build takes, read off the bits of the mode.
use si91x_rcp_driver.Prelude.{
  ℕ, ◌/◌, ◌%◌, ◌≤◌, ◌<◌, dec_lt, ◌≡◌, refl, Bool, true, false, not, ◌&&◌, ◌||◌, ltb, ◌==◌,
  if◌then◌else◌, arith, each_passes, each_passes_at, both_pass, both_pass_at,
}
use si91x_rcp_driver.Opmode.{
  Build, Verdict, valid, invalid, use_first, accept_if, rsi_validate_oper_mode,
}

-- A mode below 16 has two bits for Wi-Fi, 1 for a station, 2 for an access point and 3 for both, and
-- two bits for Bluetooth, 4 for classic and 8 for low energy.
abbrev pub wifi_bits : ℕ → ℕ
wifi_bits m = m % 4

abbrev pub bt_bits : ℕ → ℕ
bt_bits m = m / 4 % 4

-- The Zigbee role, and the bit for a station, which only the first role goes with.
abbrev pub is_zigb_role : ℕ → Bool
is_zigb_role m = not (m / 16 == 0) && (ltb m 64 && (m % 16 == 0 || (m / 16 == 1 && m % 16 == 1)))

-- A build for Bluetooth alone takes Bluetooth alone, any other Wi-Fi alone; both together want the
-- coexistence build, and Wi-Fi to be one of station and access point. Zigbee wants its own build, on
-- top of that for coexistence, without several instances.
unfoldable pub takes : Build → ℕ → Verdict
takes b m =
    if b.purism
    then accept_if (ltb m 16 && (bt_bits m == 3 && (wifi_bits m == 1 || wifi_bits m == 2)))
    else if b.multi && m == 255
    then use_first
    else if ltb m 16
    then accept_if (
        if bt_bits m == 0
        then not (wifi_bits m == 0) && not b.bt_alone
        else if wifi_bits m == 0
        then b.bt_alone
        else not (wifi_bits m == 3) && b.coex)
    else accept_if (is_zigb_role m && (b.coex && (b.zigb && not b.multi)))

same_verdict : Verdict → Verdict → Bool
same_verdict valid valid = true
same_verdict invalid invalid = true
same_verdict use_first use_first = true
same_verdict _ _ = false

same_verdict_sound : (v w : Verdict) → same_verdict v w ≡ true → v ≡ w
unfolding same_verdict
same_verdict_sound valid valid h = refl
same_verdict_sound invalid invalid h = refl
same_verdict_sound use_first use_first h = refl
same_verdict_sound valid invalid h = cc
same_verdict_sound valid use_first h = cc
same_verdict_sound invalid valid h = cc
same_verdict_sound invalid use_first h = cc
same_verdict_sound use_first valid h = cc
same_verdict_sound use_first invalid h = cc

abbrev build_of : (p a c z m : Bool) → Build
build_of p a c z m = record {
  purism = p;
  bt_alone = a;
  coex = c;
  zigb = z;
  multi = m;
  caracalla = false;
}

-- The two agree on a mode, in every build.
agree : (p a c z u : Bool) → ℕ → Bool
unfolding rsi_validate_oper_mode takes same_verdict
agree p a c z u m =
    same_verdict (rsi_validate_oper_mode (build_of p a c z u) m) (takes (build_of p a c z u) m)

abbrev agree_everywhere : ℕ → Bool
agree_everywhere m =
    both_pass
      (λ p. both_pass (λ a. both_pass (λ c. both_pass (λ z. both_pass (λ u. agree p a c z u m)))))

agree_below : each_passes agree_everywhere 256 ≡ true
unfolding each_passes agree
agree_below = refl

agree_small : (b : Build) (m : ℕ) → m < 256 → rsi_validate_oper_mode b m ≡ takes b m
unfolding agree rsi_validate_oper_mode takes
agree_small b m lt = same_verdict_sound (rsi_validate_oper_mode b m) (takes b m) (
    both_pass_at (λ u. agree b.purism b.bt_alone b.coex b.zigb u m) b.multi
      (both_pass_at (λ z. both_pass (λ u. agree b.purism b.bt_alone b.coex z u m)) b.zigb
        (both_pass_at (λ c. both_pass (λ z. both_pass (λ u. agree b.purism b.bt_alone c z u m)))
          b.coex
          (both_pass_at
            (λ a. both_pass (λ c. both_pass (λ z. both_pass (λ u. agree b.purism a c z u m))))
            b.bt_alone
            (both_pass_at
              (λ p.
                both_pass
                  (λ a. both_pass (λ c. both_pass (λ z. both_pass (λ u. agree p a c z u m)))))
              b.purism (each_passes_at agree_everywhere 256 m lt agree_below))))))

agree_large : (b : Build) (m : ℕ) → 256 ≤ m → rsi_validate_oper_mode b m ≡ takes b m
unfolding rsi_validate_oper_mode takes
agree_large b m le = ground arith

-- In every build and for every number, `rsi_validate_oper_mode` answers what the bits of the mode
-- say: Wi-Fi alone is valid unless the build is for Bluetooth alone, Bluetooth alone only in such a
-- build, both together only with coexistence and with one of station and access point, the four
-- Zigbee modes only with coexistence and Zigbee and without several instances; 0xFF stands for the
-- first mode in a build with several instances; a build for Purism takes dual-mode Bluetooth with a
-- station or an access point, and nothing else; all else is invalid.
pub rsi_validate_oper_mode-takes : (b : Build) (m : ℕ) → rsi_validate_oper_mode b m ≡ takes b m
rsi_validate_oper_mode-takes b m = elim (dec_lt m 256) [
  | yes lt ↦ agree_small b m lt
  | no ge ↦ agree_large b m (omega arith)
]
