-- ===== src/Tests/Replay.antt =====
-- The replay check on one interface with a CCMP group key.
use si91x_rcp_driver.Prelude.{
  ℕ, zero, suc, ◌<◌, ◌≤◌, ◌≡◌, refl, ◌⊎◌, inl, true, Option, none, some, [], ◌∷◌, arith,
}
use si91x_rcp_driver.Replay.{
  Pn, pn_le, byte_le, Key, VifPriv, Hdr, match_vif, pick_from, keyid, cur_pn, accepted, dropped,
  check_pn, validate_pn,
}
use si91x_rcp_driver.Replay.Order.{value}
use si91x_rcp_driver.Replay.Drop.{validate_pn_replay, check_pn-fresh}

abbrev pn : ℕ → Pn
pn n = record { b0 = 0; b1 = 0; b2 = 0; b3 = 0; b4 = 0; b5 = n }

abbrev group_key : Key
group_key = record { ccmp = true; keyidx = 1 }

abbrev station : VifPriv
station = record {
  client = true;
  assoc = true;
  bssid = 77;
  key = some group_key;
  rx_pn_valid = true;
  rx_bcmc_pn = pn 9;
  rx_bcmc_pn_prev = pn 200;
  prev_keyid = 2;
}

abbrev vifs : ℕ → Option VifPriv
vifs zero = some station
vifs (suc i) = none

-- Key index 1, packet number 0x10a.
abbrev fresh : Hdr
fresh = record { group = true; addr2 = 77; iv = 10 ∷ 1 ∷ 0 ∷ 0x60 ∷ 0 ∷ 0 ∷ 0 ∷ 0 ∷ [] }

-- Key index 3.
abbrev strange : Hdr
strange = record { group = true; addr2 = 77; iv = 1 ∷ 0 ∷ 0 ∷ 0xE0 ∷ 0 ∷ 0 ∷ 0 ∷ 0 ∷ [] }

first_time : (validate_pn 1 vifs fresh).0 ≡ accepted
unfolding validate_pn pick_from match_vif check_pn keyid cur_pn pn_le byte_le
first_time = refl

validate_pn_replay_example : (validate_pn 1 (validate_pn 1 vifs fresh).1 fresh).0 ≡ dropped
unfolding keyid
validate_pn_replay_example =
    validate_pn_replay 1 vifs fresh 0 station group_key refl (omega arith) refl refl
      (λ j w le lt e. absurd (omega (arith, le, lt))) refl refl (inl refl)

check_pn-fresh_example :
    (((check_pn fresh station group_key).0 ≡ accepted)
      × (9 < value (cur_pn group_key fresh))
      × ((check_pn fresh station group_key).1.rx_bcmc_pn ≡ cur_pn group_key fresh))
    ⊎ (((check_pn fresh station group_key).0 ≡ dropped)
        × (value (cur_pn group_key fresh) ≤ 9)
        × ((check_pn fresh station group_key).1 ≡ station))
unfolding keyid cur_pn
check_pn-fresh_example = check_pn-fresh fresh station group_key refl (omega arith) (omega arith)
