-- ===== src/Xmit/Twice.antt =====
-- A data packet whose descriptor fails, in `rsi_core_xmit` (rsi/rsi_91x_core.c) and
-- `rsi_prepare_data_desc` (rsi/rsi_91x_hal.c).
use si91x_rcp_driver.Prelude.{
  ℕ, ◌<◌, ◌≡◌, ◌⊎◌, inl, inr, refl, ◌∙◌, Bool, true, false, none, some, List, ◌∷◌, arith, ◌≢◌,
}
use si91x_rcp_driver.Xmit.{
  station, Station, Pkt, len, skb_pull, Ieee80211, Cfg, Xmit, failed, freed, indicated, is_station,
  is_ap, is_p2p_go, peer,
}
use si91x_rcp_driver.Xmit.DataDesc.{
  prepare_data_desc, push_data_desc, report, indicate_tx_status, count_freed,
}
use si91x_rcp_driver.Xmit.Core.{
  Xmitted, done, found, xmit_fail, classify, raise_broadcast, find_receiver, find_any, start_ba,
  to_mgmt, xmit_desc, xmit_to, xmit_data, core_xmit,
}
use si91x_rcp_driver.Xmit.Once.{is_taken_mgmt, classify-bytes, classify-headroom}

-- Both the report of the error, which pulls the header off, and the exit of the caller have given
-- away one packet, with the bytes `bs`.
abbrev pub Twice : List ℕ → Xmit → Xmitted → Type 0
Twice bs x r =
    (x' : Xmit) × (r ≡ done x')
    × ((a : Pkt) × (a.bytes ≡ bs)
        × (x'.disposals ≡ freed a ∷ indicated (skb_pull a.internal_hdr_size a) ∷ x.disposals))
    × (x'.common.tx_queue ≡ x.common.tx_queue)

to_mgmt-bytes : (cfg : Cfg) (p : Pkt) → (to_mgmt cfg.vif p).bytes ≡ p.bytes
unfolding to_mgmt
to_mgmt-bytes cfg p = ground arith

raise_broadcast-bytes :
    (k : Ieee80211) (cfg : Cfg) (p : Pkt) → (raise_broadcast k cfg.vif p).bytes ≡ p.bytes
unfolding raise_broadcast
raise_broadcast-bytes k cfg p = ground arith

to_mgmt-headroom : (cfg : Cfg) (p : Pkt) → (to_mgmt cfg.vif p).headroom ≡ p.headroom
unfolding to_mgmt
to_mgmt-headroom cfg p = ground arith

raise_broadcast-headroom :
    (k : Ieee80211) (cfg : Cfg) (p : Pkt) → (raise_broadcast k cfg.vif p).headroom ≡ p.headroom
unfolding raise_broadcast
raise_broadcast-headroom k cfg p = ground arith

report-Twice :
    (cfg : Cfg) (p : Pkt) (x : Xmit)
    → cfg.has_hw ≡ true
    → cfg.iface_down ≡ false
    → Twice p.bytes x (xmit_fail p (report cfg (failed p) x))
unfolding xmit_fail report indicate_tx_status count_freed
report-Twice cfg p x hw up = (_, refl, (p, refl, ground (arith, hw, up)), ground (arith, hw, up))

push_data_desc_short :
    (k : Ieee80211) (cfg : Cfg) (p : Pkt) (x : Xmit)
    → p.headroom < 20
    → push_data_desc k cfg p x ≡ (failed p, x)
unfolding push_data_desc
push_data_desc_short k cfg p x lt = ground (arith, lt)

xmit_desc-Twice :
    (k : Ieee80211) (cfg : Cfg) (p : Pkt) (x : Xmit)
    → p.headroom < 20
    → cfg.has_hw ≡ true
    → cfg.iface_down ≡ false
    → Twice p.bytes x (xmit_desc k cfg p x)
unfolding xmit_desc prepare_data_desc
xmit_desc-Twice k cfg p x lt hw up =
    let p₁ = to_mgmt cfg.vif p in
    let lt₁ : p₁.headroom < 20 = rw (to_mgmt-headroom cfg p) lt in
    let (x', r, (a, b, d), q) = report-Twice cfg p₁ x hw up in
    (x', ground (arith, push_data_desc_short k cfg p₁ x lt₁, r), (a, b ∙ to_mgmt-bytes cfg p, d), q)

start_ba-Twice :
    (i : ℕ) (p : Pkt) (bs : List ℕ) (x : Xmit) (r : Xmitted)
    → Twice bs (start_ba i p x) r
    → Twice bs x r
unfolding start_ba
start_ba-Twice i p bs x r (x', e, (a, b, d), q) =
    (x', e, (a, b, ground (arith, d)), ground (arith, q))

receiver_is_peer :
    (k : Ieee80211) (cfg : Cfg) (st : ℕ → Station) (p : Pkt)
    → cfg.vif.ty ≡ station
    → (find_receiver k cfg st p ≡ found none) ⊎ (find_receiver k cfg st p ≡ found (some peer))
unfolding find_receiver is_ap is_p2p_go is_station
receiver_is_peer k cfg st p ty = ground (arith, ty)

any_is_peer :
    (k : Ieee80211) (cfg : Cfg) (st : ℕ → Station) (p : Pkt)
    → cfg.vif.ty ≡ station
    → find_any k cfg st p ≡ some peer
unfolding find_any is_ap is_station
any_is_peer k cfg st p ty = ground (arith, ty)

xmit_to-Twice :
    (k : Ieee80211) (cfg : Cfg) (p : Pkt) (x : Xmit)
    → cfg.vif.ty ≡ station
    → p.headroom < 20
    → cfg.has_hw ≡ true
    → cfg.iface_down ≡ false
    → Twice p.bytes x (xmit_to k cfg p x)
unfolding xmit_to
xmit_to-Twice k cfg p x ty lt hw up =
    let p₁ : Pkt = record p { sta_id = (x.stations peer).sta_id } in
    let (x₁, r₁, h₁, q₁) = xmit_desc-Twice k cfg p₁ x lt hw up in
    let (x₂, r₂, h₂, q₂) =
      start_ba-Twice peer p p.bytes x (xmit_desc k cfg p₁ (start_ba peer p x))
        (xmit_desc-Twice k cfg p₁ (start_ba peer p x) lt hw up) in
    elim (receiver_is_peer k cfg x.stations p ty) [
      | inl e ↦ (x₁, ground (arith, e, any_is_peer k cfg x.stations p ty, r₁), h₁, q₁)
      | inr e ↦ (x₂, ground (arith, e, r₂), h₂, q₂)
    ]

-- For a data packet of a station that has a headroom of fewer than 20 bytes, with the hardware
-- present, the interface up and no background scan, `rsi_core_xmit` gives the packet away twice:
-- `rsi_prepare_data_desc` hands it back with its status, and the caller then frees the same packet,
-- with the bytes that it came with.
pub core_xmit-Twice :
    (k : Ieee80211) (cfg : Cfg) (scan_in_prog : Bool) (p : Pkt) (x : Xmit)
    → cfg.vif.ty ≡ station
    → cfg.bgscan_en ≡ false
    → cfg.mac_init_done ≡ true
    → len p ≢ 0
    → is_taken_mgmt k cfg p ≡ false
    → p.headroom < 20
    → cfg.has_hw ≡ true
    → cfg.iface_down ≡ false
    → Twice p.bytes x (core_xmit k cfg scan_in_prog p x)
unfolding core_xmit xmit_data
core_xmit-Twice k cfg scan_in_prog p x ty off up_fsm some_bytes other lt hw up =
    let p₁ = raise_broadcast k cfg.vif (classify k p) in
    let lt₁ : p₁.headroom < 20 =
      omega (arith, raise_broadcast-headroom k cfg (classify k p), classify-headroom k p, lt) in
    let (x', r, (a, b, d), q) = xmit_to-Twice k cfg p₁ x ty lt₁ hw up in
    let same = raise_broadcast-bytes k cfg (classify k p) ∙ classify-bytes k p in
    (x', ground (arith, up_fsm, some_bytes, other, off, r), (a, b ∙ same, d), q)
