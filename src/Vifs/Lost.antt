-- ===== src/Vifs/Lost.antt =====
-- Interfaces that are added after others, or to a table that is not empty
-- (rsi/rsi_91x_mac80211.c).
use si91x_rcp_driver.Prelude.{
  ℕ, zero, suc, ◌+◌, ◌-◌, ◌<◌, ◌≡◌, inl, inr, refl, ap, ◌∙◌, Bool, true, false, none, some, ltb,
  ◌==◌, arith, Bool-cases,
}
use si91x_rcp_driver.Stations.State.{Mac}
use si91x_rcp_driver.Stations.Table.{clear_stations}
use si91x_rcp_driver.Stations.Count.{count}
use si91x_rcp_driver.Stations.Invariant.{IsTable}
use si91x_rcp_driver.Vifs.Rejoin.{caps-SameVifs}
use si91x_rcp_driver.Vifs.{
  IfType, Opmode, VapStatus, vap_delete, Vif, Request, Ifs, Outcome, done, failed, oops, intf_mode,
  place_vif, assign, request, rsi_set_vap_capabilities, start_access_point, fresh_pn, add_mode,
  is_access_point, add_known, add_beside, rsi_mac80211_add_interface, removed_mode, take_away,
  is_vif, remove_loop, rsi_mac80211_remove_interface,
}

module _ (room : ℕ → Bool) where
  caps-p2p :
      (mode : Opmode) (v : Vif) (st : VapStatus) (s : Ifs)
      → (rsi_set_vap_capabilities room mode v st s).1.p2p_enabled ≡ s.p2p_enabled
  unfolding rsi_set_vap_capabilities request
  caps-p2p mode v st s = elim (Bool-cases (room s.mac.allocs)) [
    | inl t ↦ rw t refl
    | inr t ↦ rw t refl
  ]

  take_away-empties :
      (mode : Opmode) (v : Vif) (s : Ifs)
      → ((take_away room (some mode) v 0 s).vifs 0 ≡ none)
        × ((take_away room (some mode) v 0 s).sc_nvifs ≡ s.sc_nvifs - 1)
        × ((take_away room (some mode) v 0 s).p2p_enabled ≡ s.p2p_enabled)
  unfolding take_away
  take_away-empties mode v s =
      let less : Ifs = record s { sc_nvifs = s.sc_nvifs - 1 } in
      (refl, (caps-SameVifs room mode v vap_delete less).1, caps-p2p mode v vap_delete less)

  remove_first :
      (mode : Opmode) (a : Vif) (s : Ifs)
      → s.sc_nvifs ≡ 2
      → s.vifs 0 ≡ some a
      → removed_mode a.ty ≡ some mode
      → rsi_mac80211_remove_interface room a s ≡ take_away room (some mode) a 0 s
  unfolding rsi_mac80211_remove_interface remove_loop
  remove_first mode a s two first known =
      let some_there : (s.sc_nvifs == 0) ≡ false = ground arith in
      let mine : is_vif a (s.vifs 0) ≡ true = unfold is_vif in (rw first (ground arith)) in
      rw some_there (rw mine (ap (λ k. take_away room k a 0 s) known))

  beside_nothing :
      (c : Vif) (s : Ifs)
      → s.vifs 0 ≡ none
      → s.sc_nvifs ≡ 1
      → s.p2p_enabled ≡ true
      → rsi_mac80211_add_interface room c s ≡ oops
  unfolding rsi_mac80211_add_interface add_beside
  beside_nothing c s empty one p2p =
      let some_there : ltb 0 s.sc_nvifs ≡ true = ground arith in
      rw some_there (rw p2p (rw empty refl))

-- With P2P on and two interfaces, the first of which is of a type that the removal knows, whatever
-- buffers there are: once the first one has been removed, the next interface that is added, of any
-- type, makes the driver read through a null pointer.
pub rsi_mac80211_add_interface_oops :
    (room : ℕ → Bool) (mode : Opmode) (a c : Vif) (s : Ifs)
    → s.sc_nvifs ≡ 2
    → s.vifs 0 ≡ some a
    → removed_mode a.ty ≡ some mode
    → s.p2p_enabled ≡ true
    → rsi_mac80211_add_interface room c (rsi_mac80211_remove_interface room a s) ≡ oops
rsi_mac80211_add_interface_oops room mode a c s two first known p2p =
    let e = take_away-empties room mode a s in
    ap (rsi_mac80211_add_interface room c) (remove_first room mode a s two first known)
    ∙ beside_nothing room c (take_away room (some mode) a 0 s) e.0 (omega (arith, e.1, two))
        (e.2 ∙ p2p)

-- No slot is taken in an emptied table.
count_cleared : (m : Mac) (n : ℕ) → n < m.max_stations + 1 → count (clear_stations m).stations n ≡ 0
unfolding count clear_stations
count_cleared m zero lt = refl
count_cleared m (suc n) lt =
    let inside : ltb n m.max_stations ≡ true = ground arith in
    rw (count_cleared m n (omega arith)) (rw inside refl)

cleared-IsTable : (m : Mac) → IsTable (clear_stations m) → m.num_stations ≡ 0
unfolding clear_stations
cleared-IsTable m t = t.counted ∙ count_cleared m m.max_stations (omega arith)

-- The number of stations.
abbrev stations_of : Ifs → ℕ
stations_of s = s.mac.num_stations

module _ (room : ℕ → Bool) (all : (n : ℕ) → room n ≡ true) where
  request-stations :
      (r : Request) (s : Ifs)
      → ((request room r s).0 ≡ true) × (stations_of (request room r s).1 ≡ stations_of s)
  unfolding request
  request-stations r s = rw (all s.mac.allocs) (refl, refl)

  start-stale : (s : Ifs) → 0 < stations_of s → ¬ IsTable (start_access_point room s).mac
  unfolding start_access_point
  start-stale s some_there t =
      let r = request-stations (Request.rx_filter 16) (record s { bc_mc_seqno = 1 }) in
      absurd (omega (arith, r.1, cleared-IsTable _ t))

  caps-stations :
      (mode : Opmode) (v : Vif) (st : VapStatus) (s : Ifs)
      → ((rsi_set_vap_capabilities room mode v st s).0 ≡ true)
        × (stations_of (rsi_set_vap_capabilities room mode v st s).1 ≡ stations_of s)
  unfolding rsi_set_vap_capabilities
  caps-stations mode v st s =
      let r = request-stations (Request.vap_caps mode v.addr (s.vif_id v.id) st) s in
      rw r.0 (refl, r.1)

  assign-same :
      (mode : Opmode) (v : Vif) (s : Ifs)
      → ((assign mode v s).0.sniffer ≡ s.sniffer)
        × (stations_of (assign mode v s).0 ≡ stations_of s)
  unfolding assign
  assign-same mode v s = (ground arith, ground arith)

  place-same :
      (v : Vif) (s : Ifs)
      → ((place_vif v s).sniffer ≡ s.sniffer) × (stations_of (place_vif v s) ≡ stations_of s)
  unfolding place_vif
  place-same v s = (ground arith, ground arith)

-- The interface is there, and the table is not well-formed.
unfoldable pub Stale : Outcome → Type 0
Stale (done s') = ¬ IsTable s'.mac
Stale (failed s') = ⊥
Stale oops = ⊥

module _ (room : ℕ → Bool) (all : (n : ℕ) → room n ≡ true) (v : Vif) (s : Ifs) where
  ap_mode-Stale :
      is_access_point v.ty ≡ true
      → s.sniffer ≡ false
      → 0 < stations_of s
      → Stale (add_mode room Opmode.ap_opmode false v s)
  unfolding add_mode Stale
  ap_mode-Stale is_ap plain some_there =
      let s₁ : Ifs = place_vif v s in
      let a = assign Opmode.ap_opmode v s₁ in
      let p = place-same room all v s in
      let q = assign-same room all Opmode.ap_opmode v s₁ in
      let c = caps-stations room all Opmode.ap_opmode v a.1 a.0 in
      let s₃ : Ifs = (rsi_set_vap_capabilities room Opmode.ap_opmode v a.1 a.0).1 in
      rw (q.0 ∙ (p.0 ∙ plain)) (
        rw c.0 (
          rw is_ap (
            start-stale room all (fresh_pn v s₃)
              (unfold fresh_pn in (omega (arith, c.1, q.1, p.1, some_there))))))

-- An access point that is added as the only interface, outside of sniffer mode and with every buffer
-- there, while stations are counted: it is added, and the station table is not well-formed, since it
-- has been emptied and the count is as before.
pub rsi_mac80211_add_interface-Stale :
    (room : ℕ → Bool) (v : Vif) (s : Ifs)
    → ((n : ℕ) → room n ≡ true)
    → v.ty ≡ IfType.ap
    → s.sc_nvifs ≡ 0
    → s.sniffer ≡ false
    → 0 < s.mac.num_stations
    → Stale (rsi_mac80211_add_interface room v s)
unfolding rsi_mac80211_add_interface
rsi_mac80211_add_interface-Stale room v s all is_ap z plain some_there =
    let alone : ltb 0 s.sc_nvifs ≡ false = ground arith in
    let mode : intf_mode v.ty ≡ some (Opmode.ap_opmode, false) =
      ap intf_mode is_ap ∙ unfold intf_mode in refl in
    rw alone (
      rw mode (
        unfold add_known in
        (ap_mode-Stale room all v s (ap is_access_point is_ap) plain some_there)))
