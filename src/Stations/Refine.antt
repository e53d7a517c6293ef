-- ===== src/Stations/Refine.antt =====
-- The station table (rsi/rsi_91x_mac80211.c) with a station added or removed.
use si91x_rcp_driver.Prelude.{
  ℕ, ◌+◌, ◌≤◌, ◌<◌, ◌≡◌, inl, inr, refl, sym, ap, ◌∙◌, Bool, true, false, none, some, leb, ◌==◌,
  if◌then◌else◌, arith, Bool-cases, update_ne,
}
use si91x_rcp_driver.Stations.State.{Peer, Mac}
use si91x_rcp_driver.Stations.Table.{
  has_addr, is_free, Found, exists_at, absent, scan, fresh_slot, put, index_or, Added, added,
  rejected, add_new, add_found, rsi_mac80211_sta_add, drop_at, drop_found, rsi_mac80211_sta_remove,
}
use si91x_rcp_driver.Stations.Scan.{Without, FreeIs, Scans, scan-Scans}
use si91x_rcp_driver.Stations.Count.{taken, count, count_all, count_pos}
use si91x_rcp_driver.Stations.Invariant.{
  Replaces, IsTable, Alone, add_new-Replaces, drop_at-Replaces, fresh-IsTable, gone-IsTable,
  taken_of_has_addr,
}
use si91x_rcp_driver.Stations.Map.{
  find, find_without, find_fresh, find_gone, free_without, has_addr_other, alone_of,
}

-- What `rsi_mac80211_sta_add` does to the map, for the address `addr`.
unfoldable pub Adds : Mac → Peer → (addr : ℕ) → Added → Type 0
Adds m p addr (rejected m') = (m.max_stations ≤ count m.stations m.max_stations) × (m' ≡ m)
Adds m p addr (added m') =
    IsTable m'
    × (find m' addr ≡ (if p.addr == addr then some p else find m addr))
    × (m'.max_stations ≡ m.max_stations)
    × (m'.stations m.max_stations ≡ m.stations m.max_stations)

-- What the state is after the table has been seen to.
abbrev Placed : Mac → Peer → (addr : ℕ) → Mac → Type 0
Placed m p addr m' = Adds m p addr (added m')

module _ (room : ℕ → Bool) (m : Mac) (p : Peer) (addr : ℕ) (t : IsTable m) where
  placed :
      (m' : Mac) (i : ℕ)
      → Replaces i (fresh_slot p i) m m'
      → i < m.max_stations
      → m'.num_stations + taken (m.stations i) ≡ m.num_stations + 1
      → ((addr' : ℕ) → (p.addr == addr') ≡ false → has_addr addr' (m.stations i).sta ≡ false)
      → Alone m.stations p.addr i m.max_stations
      → Placed m p addr m'
  unfolding Adds
  placed m' i r lt moved old alone = (
    fresh-IsTable m m' p i r lt moved alone t,
    find_fresh m m' p i addr r lt old alone,
    r.1,
    ap (λ st. st m.max_stations) r.0
        ∙ update_ne m.stations i m.max_stations (fresh_slot p i) (omega (arith, lt)),
  )

  exists-Placed :
      (i : ℕ)
      → i < m.max_stations
      → has_addr p.addr (m.stations i).sta ≡ true
      → Placed m p addr (put i (fresh_slot p i) m)
  unfolding put
  exists-Placed i lt h =
      let occupied : is_free (m.stations i).sta ≡ false =
        taken_of_has_addr p.addr (m.stations i).sta h in
      placed (put i (fresh_slot p i) m) i (refl, refl) lt (rw occupied (omega arith))
        (λ addr' ne. has_addr_other p.addr addr' (m.stations i).sta h ne)
        (λ j jlt ne. alone_of m t p.addr i j lt jlt h ne)

  free-Placed :
      (i : ℕ)
      → i < m.max_stations
      → is_free (m.stations i).sta ≡ true
      → Without m.stations p.addr 0 m.max_stations
      → Placed m p addr (add_new room p i m)
  free-Placed i lt free without =
      let r = add_new-Replaces room p i m in
      placed (add_new room p i m) i r.0 lt (rw free (omega (arith, r.1)))
        (λ addr' ne. free_without addr' (m.stations i).sta free)
        (λ j jlt ne. without j (omega arith) jlt)

  found-Placed :
      (r : Found)
      → Scans m.stations p.addr 0 m.max_stations none r
      → m.num_stations < m.max_stations
      → Placed m p addr (add_found room p r m)
  unfolding add_found Scans index_or FreeIs
  found-Placed (exists_at i) (lt, h) room_left = exists-Placed i lt h
  found-Placed (absent none) (without, (e, full)) room_left =
      absurd (omega (arith, t.counted, count_all m.stations m.max_stations full))
  found-Placed (absent (some k)) (without, inl e) room_left = cc
  found-Placed (absent (some k)) (without, inr (lt, free)) room_left = free-Placed k lt free without

  with_sgi :
      (has_sgi : Bool) (m' : Mac)
      → Placed m p addr m'
      → Placed m p addr (if has_sgi then record m' { sgi = true } else m')
  unfolding Adds find
  with_sgi true m' (t', f, x, s) =
      (record { counted = t'.counted; ids = t'.ids; distinct = t'.distinct }, f, x, s)
  with_sgi false m' q = q

-- A station added to a well-formed table, whatever buffers there are: either the table was full and
-- the state is as before, or the table is well-formed again, the station is the one that the table
-- has for its address, all other addresses have what they had, and the slot at `max_stations`, behind
-- the table, is as before.
pub rsi_mac80211_sta_add-Adds :
    (room : ℕ → Bool) (has_sgi : Bool) (p : Peer) (addr : ℕ) (m : Mac)
    → IsTable m
    → Adds m p addr (rsi_mac80211_sta_add room has_sgi p m)
unfolding rsi_mac80211_sta_add
rsi_mac80211_sta_add-Adds room has_sgi p addr m t =
    elim (Bool-cases (leb m.max_stations m.num_stations)) [
      | inl e ↦ rw e (unfold Adds in (rw (sym t.counted) (ground arith), refl))
      | inr e ↦ rw e (
          let r = scan m.stations p.addr m.max_stations 0 none in
          with_sgi room m p addr t has_sgi (add_found room p r m) (
            found-Placed room m p addr t r (scan-Scans m.stations p.addr m.max_stations)
              (ground arith)))
    ]

-- What the removal leaves, for the address `addr`.
abbrev pub Removes : Mac → Peer → (addr : ℕ) → Mac → Type 0
Removes m p addr m' =
    IsTable m'
    × (find m' addr ≡ (if p.addr == addr then none else find m addr))
    × (m'.max_stations ≡ m.max_stations)

pub drop_at-Removes :
    (room : ℕ → Bool) (m : Mac) (p : Peer) (addr i : ℕ)
    → IsTable m
    → i < m.max_stations
    → has_addr p.addr (m.stations i).sta ≡ true
    → Removes m p addr (drop_at room p i m)
drop_at-Removes room m p addr i t lt h =
    let (s, e, r, n) = drop_at-Replaces room p i m in
    let occupied : is_free (m.stations i).sta ≡ false =
      taken_of_has_addr p.addr (m.stations i).sta h in
    let some_taken : 0 < m.num_stations =
      omega (arith, t.counted, count_pos m.stations i m.max_stations lt occupied) in
    (
      gone-IsTable m (drop_at room p i m) i s r e lt (rw occupied (omega (arith, n, some_taken))) t,
      find_gone m (drop_at room p i m) i s p.addr addr r e lt h
          (λ j jlt ne. alone_of m t p.addr i j lt jlt h ne),
      r.1,
    )

drop_found-Removes :
    (room : ℕ → Bool) (m : Mac) (p : Peer) (addr : ℕ) (r : Found)
    → IsTable m
    → Scans m.stations p.addr 0 m.max_stations none r
    → Removes m p addr (drop_found room p r m)
unfolding drop_found Scans
drop_found-Removes room m p addr (exists_at i) t (lt, h) = drop_at-Removes room m p addr i t lt h
drop_found-Removes room m p addr (absent free) t (without, is) =
    (t, find_without m p.addr addr (λ j jlt. without j (omega arith) jlt), refl)

-- A station removed from a well-formed table, whatever buffers there are: the table is well-formed
-- again, it has no station for this address, and all other addresses have what they had.
pub rsi_mac80211_sta_remove-Removes :
    (room : ℕ → Bool) (p : Peer) (addr : ℕ) (m : Mac)
    → IsTable m
    → Removes m p addr (rsi_mac80211_sta_remove room p m)
unfolding rsi_mac80211_sta_remove
rsi_mac80211_sta_remove-Removes room p addr m t =
    drop_found-Removes room m p addr (scan m.stations p.addr m.max_stations 0 none) t
      (scan-Scans m.stations p.addr m.max_stations)
