-- ===== src/Stations/Table.antt =====
-- The station table of an access point: `rsi_mac80211_sta_add` and `rsi_mac80211_sta_remove` of
-- rsi/rsi_91x_mac80211.c for an interface of that type, and the part of
-- `rsi_mac80211_add_interface` that empties the table.
use si91x_rcp_driver.Prelude.{
  ℕ, zero, suc, ◌+◌, ◌-◌, Bool, true, false, Option, none, some, ltb, leb, ◌==◌, if◌then◌else◌,
  update, replicate,
}
use si91x_rcp_driver.Stations.State.{Peer, Slot, Key, Mac}
use si91x_rcp_driver.Stations.Notify.{is_wep, inform_connected, inform_disconnected, rsi_load_key}

-- `!memcmp(stations[i].sta->addr, addr, ETH_ALEN)`, for a slot with a station.
unfoldable pub has_addr : ℕ → Option Peer → Bool
has_addr addr none = false
has_addr addr (some p) = p.addr == addr

abbrev pub is_free : Option Peer → Bool
is_free none = true
is_free (some p) = false

-- What the loop ends with: the index where the station is, or `free_index`, `none` for -1. In the
-- second case the index is `max_stations`.
pub data Found : Type 0 where
  exists_at : ℕ → Found
  absent : (free_index : Option ℕ) → Found

-- `if (free_index < 0) free_index = i`, in a free slot.
unfoldable pub note_free : Option ℕ → Option Peer → ℕ → Option ℕ
note_free none none i = some i
note_free none (some p) i = none
note_free (some k) o i = some k

-- The loop from `i` on, with `left` slots to go.
unfoldable pub scan : (stations : ℕ → Slot) (addr : ℕ) (left i : ℕ) → Option ℕ → Found
scan stations addr zero i free = absent free
scan stations addr (suc left) i free =
    let rest = scan stations addr left (i + 1) (note_free free (stations i).sta i) in
    if has_addr addr (stations i).sta then exists_at i else rest

-- IEEE80211_NUM_ACS is 4 and IEEE80211_NUM_TIDS is 16.
unfoldable pub fresh_slot : Peer → ℕ → Slot
fresh_slot p i = record {
  sta = some p;
  sta_id = i;
  seq_no = replicate 4 1;
  start_tx_aggr = replicate 16 false;
}

unfoldable pub put : ℕ → Slot → Mac → Mac
put i s m = record m { stations = update m.stations i s }

-- `i = free_index` if there is one; the loop has left it at `max_stations`.
unfoldable pub index_or : Option ℕ → ℕ → ℕ
index_or none i = i
index_or (some k) i = k

-- `stations[i].sta = sta; stations[i].sta_id = i`
unfoldable pub place : Peer → ℕ → Mac → Mac
place p i m = record m {
  stations = update m.stations i (record (m.stations i) { sta = some p; sta_id = i });
}

pub data Added : Type 0 where
  added : Mac → Added
  rejected : Mac → Added  -- -EOPNOTSUPP

module _ (room : ℕ → Bool) where
  unfoldable pub load_wep : Option Key → ℕ → Mac → Mac
  load_wep none i m = m
  load_wep (some k) i m = if is_wep k.cipher then rsi_load_key room k i m else m

  -- A station that is not in the table.
  unfoldable pub add_new : Peer → ℕ → Mac → Mac
  add_new p i m =
      let m₁ = inform_connected room p i (place p i m) in
      let m₂ = load_wep m₁.key i m₁ in
      let m₃ = put i (fresh_slot p i) m₂ in record m₃ { num_stations = m₃.num_stations + 1 }

  unfoldable pub add_found : Peer → Found → Mac → Mac
  add_found p (exists_at i) m = put i (fresh_slot p i) m
  add_found p (absent free) m = add_new p (index_or free m.max_stations) m

  -- `has_sgi` tells whether the station has a short guard interval.
  unfoldable pub rsi_mac80211_sta_add : (has_sgi : Bool) → Peer → Mac → Added
  rsi_mac80211_sta_add has_sgi p m =
      if leb m.max_stations m.num_stations
      then rejected m
      else (let m' = add_found p (scan m.stations p.addr m.max_stations 0 none) m in
          added (if has_sgi then record m' { sgi = true } else m'))

  -- The station at `i` goes.
  unfoldable pub drop_at : Peer → ℕ → Mac → Mac
  drop_at p i m =
      let m₁ = inform_disconnected room p i m in
      let m₂ =
        put i (record (m₁.stations i) { sta = none; sta_id = 0xFFFF; seq_no = replicate 4 0 }) m₁ in
      record m₂ { num_stations = m₂.num_stations - 1 }

  unfoldable pub drop_found : Peer → Found → Mac → Mac
  drop_found p (exists_at i) m = drop_at p i m
  drop_found p (absent free) m = m

  unfoldable pub rsi_mac80211_sta_remove : Peer → Mac → Mac
  rsi_mac80211_sta_remove p m = drop_found p (scan m.stations p.addr m.max_stations 0 none) m

-- The slots below `max_stations` lose their stations.
unfoldable pub clear_stations : Mac → Mac
clear_stations m = record m {
  stations =
      λ i. if ltb i m.max_stations then record (m.stations i) { sta = none } else m.stations i;
}
