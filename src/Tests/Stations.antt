-- ===== src/Tests/Stations.antt =====
-- A table of two slots with one station.
use si91x_rcp_driver.Prelude.{
  ℕ, ◌≡◌, inl, inr, refl, sym, ap, ◌∙◌, Bool, true, false, none, some, [], ◌==◌, if◌then◌else◌,
  arith, Bool-cases,
}
use si91x_rcp_driver.Stations.State.{Peer, Slot, Mac}
use si91x_rcp_driver.Stations.Table.{
  has_addr, is_free, rsi_mac80211_sta_add, rsi_mac80211_sta_remove,
}
use si91x_rcp_driver.Stations.Count.{count}
use si91x_rcp_driver.Stations.Invariant.{IsTable}
use si91x_rcp_driver.Stations.Refine.{
  Adds, rsi_mac80211_sta_add-Adds, Removes, rsi_mac80211_sta_remove-Removes,
}
use si91x_rcp_driver.Stations.Order.{Swapped, sta_add-sta_remove-Swapped}

abbrev phone : Peer
phone = record { addr = 7; wme = true; aid = 1 }

abbrev laptop : Peer
laptop = record { addr = 8; wme = false; aid = 2 }

abbrev empty_slot : Slot
empty_slot = record { sta = none; sta_id = 0; seq_no = []; start_tx_aggr = [] }

abbrev taken_slot : Slot
taken_slot = record { sta = some phone; sta_id = 0; seq_no = []; start_tx_aggr = [] }

abbrev one_station : Mac
one_station = record {
  stations = λ i. if i == 0 then taken_slot else empty_slot;
  num_stations = 1;
  max_stations = 2;
  key = none;
  min_rate = 0xffff;
  hw_data_qs_blocked = true;
  peer_notify_state = false;
  sta_bssid = 0;
  traffic_timer = false;
  sgi = false;
  queue = [];
  allocs = 0;
}

only_first : (addr i : ℕ) → has_addr addr (one_station.stations i).sta ≡ true → i ≡ 0
unfolding has_addr
only_first addr i h = elim (Bool-cases (i == 0)) [
  | inl e ↦ ground arith
  | inr e ↦ cc (ap (λ b. has_addr addr (if b then taken_slot else empty_slot).sta) e, h)
]

first_id :
    (i : ℕ) → is_free (one_station.stations i).sta ≡ false → (one_station.stations i).sta_id ≡ i
first_id i h = elim (Bool-cases (i == 0)) [
  | inl e ↦ ground arith
  | inr e ↦ cc (ap (λ b. is_free (if b then taken_slot else empty_slot).sta) e, h)
]

one_station-IsTable : IsTable one_station
unfolding count
one_station-IsTable = record {
  counted = refl;
  ids = λ i lt h. first_id i h;
  distinct = λ addr i j il jl ih jh. only_first addr i ih ∙ sym (only_first addr j jh);
}

abbrev always : ℕ → Bool
always n = true

rsi_mac80211_sta_add-Adds_example :
    Adds one_station laptop 8 (rsi_mac80211_sta_add always false laptop one_station)
rsi_mac80211_sta_add-Adds_example =
    rsi_mac80211_sta_add-Adds always false laptop 8 one_station one_station-IsTable

rsi_mac80211_sta_remove-Removes_example :
    Removes one_station phone 7 (rsi_mac80211_sta_remove always phone one_station)
rsi_mac80211_sta_remove-Removes_example =
    rsi_mac80211_sta_remove-Removes always phone 7 one_station one_station-IsTable

sta_add-sta_remove-Swapped_example :
    Swapped phone 0 one_station.queue
      (rsi_mac80211_sta_add always true phone (rsi_mac80211_sta_remove always phone one_station))
unfolding has_addr
sta_add-sta_remove-Swapped_example =
    sta_add-sta_remove-Swapped always true phone 0 one_station (λ n. refl) one_station-IsTable
      (omega arith) refl
