-- ===== src/Xmit/MgmtDesc.antt =====
-- `rsi_prepare_mgmt_desc` of rsi/rsi_91x_hal.c, built with OFFLOAD_SCAN_TO_DEVICE.
use si91x_rcp_driver.Prelude.{
  ℕ, ◌+◌, ◌-◌, ◌*◌, ◌%◌, ◌^◌, Bool, not, ◌&&◌, ◌||◌, Option, none, some, ltb, ◌==◌, if◌then◌else◌,
}
use si91x_rcp_driver.Rx.{byte, u16}
use si91x_rcp_driver.Xmit.{
  Vif, Station, Pkt, len, skb_push, Ieee80211, Cfg, Desc, no_desc, Prepared, ready, failed, panic,
  slice, get_vif, find_sta, is_ap, is_p2p_go, or, frame_desc_sz,
}

abbrev pub insert_seq_in_fw : ℕ
insert_seq_in_fw = 2 ^ 2

-- `desc[0]` to `desc[3]` and `desc[6]`, for a header of `header_size` bytes.
unfoldable pub mgmt_frame_words : Ieee80211 → (scan_in_prog : Bool) → (header_size : ℕ) → Pkt → Desc
mgmt_frame_words k scan_in_prog header_size p =
    let fc = u16 p.bytes 0 in
    let protected = k.has_protected fc in
    let w3 = if k.is_probe_req fc && scan_in_prog then insert_seq_in_fw else 0 in
    let w3₁ = or w3 1 in
    record no_desc {
      w0 = or (len p - frame_desc_sz) (4 * 2 ^ 12) % 2 ^ 16;
      w2 = or (header_size - frame_desc_sz) ((if protected then 32 else 24) * 2 ^ 8);
      w3 = if byte p.bytes 4 % 2 == 1 then or w3₁ (2 ^ 9) else w3₁;
      w6 = or (if protected then 2 ^ 15 else 0) (k.seq_to_sn (u16 p.bytes 22));
    }

-- The rate, the bandwidth and the retries.
unfoldable pub mgmt_rate_words : Ieee80211 → Cfg → Pkt → Desc → Desc
mgmt_rate_words k cfg p d =
    let fc = u16 p.bytes 0 in
    let scanning = k.is_probe_req fc || (k.is_probe_resp fc || k.is_beacon fc) in
    let low = if cfg.band_2ghz && not cfg.p2p_enabled then 0x0 else 0x8b in
    let rated = record d {
      w4 = if scanning then low else cfg.minimum_basic_rate;
      w5 = if cfg.ht40 then 0x6 else d.w5;
    } in
    if k.is_probe_resp fc
    then record rated { w1 = or rated.w1 (2 ^ 11 + 2 ^ 12); retry_cnt = 3 }
    else rated

-- The station and the interface; `none` is `goto err`.
unfoldable pub mgmt_station_words : Ieee80211 → Cfg → (ℕ → Station) → Vif → Pkt → Desc → Option Desc
mgmt_station_words k cfg stations vif p d =
    let fc = u16 p.bytes 0 in
    let to : Desc → ℕ → Desc = λ d sta_id. record d {
      w7 = or d.w7 (sta_id * 2 ^ 8) % 2 ^ 16;
      w4 = or d.w4 (vif.vap_id * 2 ^ 14) % 2 ^ 16;
    } in
    if (is_ap vif.ty || is_p2p_go vif.ty) && k.is_action fc
    then elim (find_sta k cfg stations (slice 4 6 p.bytes)) [
      | none ↦ none
      | some i ↦ some (to d (stations i).sta_id)
    ]
    else some (to d vif.vap_id)

-- From the two pushes on.
unfoldable pub mgmt_desc_of :
    Ieee80211 → Cfg → (ℕ → Station) → (scan_in_prog : Bool) → (header_size : ℕ) → Pkt → Prepared
mgmt_desc_of k cfg stations scan_in_prog header_size p₀ =
    let p = record p₀ { internal_hdr_size = header_size } in
    elim (get_vif cfg.vifs (slice 10 6 p.bytes)) [
      | none ↦ failed p
      | some vif ↦
          if ltb 512 (len p)
          then failed p
          else (let words =
                mgmt_rate_words k cfg p (mgmt_frame_words k scan_in_prog header_size p) in
              elim (mgmt_station_words k cfg stations vif p words) [
                | none ↦ failed p
                | some d ↦ ready d p
              ])
    ]

unfoldable pub prepare_mgmt_desc :
    Ieee80211 → Cfg → (ℕ → Station) → (scan_in_prog : Bool) → Pkt → Prepared
prepare_mgmt_desc k cfg stations scan_in_prog p =
    if not cfg.has_hw || ltb p.headroom 20 then failed p else elim (skb_push 20 p) [
      | none ↦ panic
      | some p₁ ↦
          let align = p₁.misaligned in
          if ltb p₁.headroom align then failed p₁ else elim (skb_push align p₁) [
            | none ↦ panic
            | some p₂ ↦ mgmt_desc_of k cfg stations scan_in_prog (20 + align) p₂
          ]
    ]
