-- ===== src/Tests/Beacon.antt =====
-- A beacon with a country element among its elements.
use si91x_rcp_driver.Prelude.{ℕ, refl, true, false, some, List, [], ◌∷◌, ◌++◌, arith, if◌then◌else◌}
use si91x_rcp_driver.Beacon.{Mode, prepare_beacon}
use si91x_rcp_driver.Beacon.Strip.{Ie, bytes_of, without_country}
use si91x_rcp_driver.Beacon.Frame.{Carries, beacon_of, prepare_beacon-Carries}

abbrev acx : Mode
acx = record {
  ht40_plus = false;
  ht40_minus = false;
  band_2ghz = true;
  p2p_enabled = false;
  acx_module = true;
}

abbrev fixed : List ℕ
fixed =
    128 ∷ 0 ∷ 0 ∷ 0 ∷ 255 ∷ 255 ∷ 255 ∷ 255 ∷ 255 ∷ 255 ∷ 2 ∷ 0 ∷ 0 ∷ 0 ∷ 0 ∷ 1 ∷ 2 ∷ 0 ∷ 0 ∷ 0 ∷ 0
    ∷ 1 ∷ 0 ∷ 0 ∷ 0 ∷ 0 ∷ 0 ∷ 0 ∷ 0 ∷ 0 ∷ 0 ∷ 0 ∷ 100 ∷ 0 ∷ 1 ∷ 0 ∷ []

abbrev elements : List Ie
elements =
    record { id = 0; content = 65 ∷ 66 ∷ [] }
    ∷ record { id = 7; content = 85 ∷ 83 ∷ 32 ∷ [] }
    ∷ record { id = 5; content = 0 ∷ 1 ∷ 0 ∷ 0 ∷ [] }
    ∷ []

prepare_beacon-Carries_example :
    Carries
      (fixed ++ bytes_of (if true then without_country elements else elements))
      (prepare_beacon 4 acx 47 (some (beacon_of fixed elements (1 ∷ []) 0)))
unfolding bytes_of
prepare_beacon-Carries_example =
    prepare_beacon-Carries acx 47 4 0 fixed elements (1 ∷ []) refl (omega arith) (omega arith)
