-- ===== src/Xmit/DataDesc.antt =====
-- `rsi_prepare_data_desc` of rsi/rsi_91x_hal.c. The pointer `wh` is not null where it is tested.
use si91x_rcp_driver.Prelude.{
  ℕ, ◌+◌, ◌-◌, ◌*◌, ◌/◌, ◌%◌, ◌^◌, Bool, not, ◌&&◌, ◌||◌, none, some, List, [], ◌∷◌, ltb, leb, ◌==◌,
  if◌then◌else◌, update,
}
use si91x_rcp_driver.Tx.State.{vo_q}
use si91x_rcp_driver.Rx.{u16}
use si91x_rcp_driver.Xmit.{
  Vif, Station, Pkt, len, skb_push, skb_pull, Ieee80211, AxParams, Cfg, Xmit, Desc, no_desc,
  Prepared, ready, failed, panic, indicated, slice, get_vif, is_ap, is_p2p_go, is_station, or,
  frame_desc_sz, peer, eth_p_pae, eth_p_802_3,
}

-- The test for an EAPOL frame, which stands in `rsi_core_xmit` too.
unfoldable pub is_eapol : Vif → Pkt → Bool
is_eapol vif p =
    (is_station vif.ty && ((p.protocol == eth_p_pae) || (p.protocol == eth_p_802_3)))
    || (is_ap vif.ty && (p.protocol == eth_p_pae))

unfoldable pub station_of : Vif → Pkt → ℕ
station_of vif p = if is_station vif.ty then peer else p.sta_id

-- `wh->frame_control |= BIT(12)`, in the second byte of a frame.
unfoldable pub set_pm_bit : List ℕ → List ℕ
set_pm_bit [] = []
set_pm_bit (b ∷ []) = b ∷ []
set_pm_bit (b ∷ c ∷ rest) = b ∷ or c (2 ^ 4) ∷ rest

unfoldable pub set_pm : Cfg → Vif → Pkt → Pkt
set_pm cfg vif p =
    if (not p.encap && is_station vif.ty) && cfg.ps_enabled
    then record p { bytes = set_pm_bit p.bytes }
    else p

-- `frame_desc[0]` to `frame_desc[2]` and `frame_desc[6]` before any EAPOL changes.
unfoldable pub data_frame_words : Ieee80211 → Cfg → Station → (header_size : ℕ) → Pkt → Desc
data_frame_words k cfg sta header_size p =
    let qos = not p.encap && k.is_data_qos (u16 p.bytes 0) in
    let encrypts =
      not p.dont_encrypt
      && (if p.encap
          then not (p.protocol == eth_p_pae) && not (p.protocol == eth_p_802_3)
          else p.hw_key) in
    let hdr =
      24
      + (if qos then 2 else 0)
      + (if not p.encap && encrypts then (if cfg.cipher_wep then 4 else 8) else 0) in
    let w6 = if qos || (p.encap && (sta.present && sta.wme)) then 2 ^ 12 else 0 in
    let w6₁ = if encrypts then or w6 (2 ^ 15) else w6 in
    record no_desc {
      w0 = or (len p - frame_desc_sz) (5 * 2 ^ 12) % 2 ^ 16;
      w1 = if p.encap then 1 else 0;
      w2 =
          if p.encap
          then header_size - frame_desc_sz
          else or (header_size - frame_desc_sz) (hdr * 2 ^ 8);
      w6 = if p.encap then w6₁ else or w6₁ (k.seq_to_sn (u16 p.bytes 22));
    }

unfoldable pub min_rate_words : Cfg → Desc → Desc
min_rate_words cfg d = if cfg.min_rate == 0xffff then d else record d {
  w3 = 1;
  w4 = if cfg.sgi && (cfg.min_rate / 2 ^ 8 % 2 == 1) then or cfg.min_rate (2 ^ 9) else cfg.min_rate;
  w5 = if cfg.ht40 then 0x6 else d.w5;
}

-- `bbp_info`, a `u16`.
unfoldable pub bbp_info : AxParams → ℕ
bbp_info ax =
    or
      (or
        (or
          (or
            (or
              (or
                (or
                  (or (or (or ax.coding_type (ax.nominal_pe * 2 ^ 1)) (ax.ul_dl * 2 ^ 3))
                    (ax.he_ppdu_type * 2 ^ 4))
                  (ax.beam_change * 2 ^ 6))
                (ax.bw * 2 ^ 7))
              (ax.stbc * 2 ^ 8))
            (ax.tx_bf * 2 ^ 9))
          (ax.gi_ltf * 2 ^ 10))
        (ax.dcm * 2 ^ 12))
      (ax.nsts_midamble * 2 ^ 13)
    % 2 ^ 16

-- ER_SU_PPDU is 1 and SU_PPDU 0; ER_SU_ONLY is 2 and ERSU_HE_MIXED 1.
unfoldable pub choose_ppdu : Cfg → AxParams → AxParams
choose_ppdu cfg ax =
    if cfg.fixed_rate_en && (cfg.enable_er_su && not (cfg.config_er_su == 0))
    then record ax {
      he_ppdu_type =
          if (cfg.config_er_su == 2) || ((cfg.config_er_su == 1) && leb (cfg.fixed_rate % 2 ^ 3) 2)
          then 1
          else 0;
    }
    else ax

unfoldable pub ax_words : Cfg → Vif → AxParams → Desc → AxParams × Desc
ax_words cfg vif ax d =
    let ax₁ = choose_ppdu cfg ax in
    if ax.enabled && is_station vif.ty then (ax₁, record d { w5 = bbp_info ax₁ }) else (ax, d)

unfoldable pub fixed_rate_words : Cfg → Desc → Desc
fixed_rate_words cfg d = if cfg.fixed_rate_en then record d { w3 = 1; w4 = cfg.fixed_rate } else d

-- Whether the packet has the length of the fourth message of the handshake.
unfoldable pub is_eapol_4 : (header_size : ℕ) → Pkt → Bool
is_eapol_4 header_size p =
    if p.encap
    then len p == 113 + header_size
    else (len p - header_size == 133) || (len p - header_size == 131)

-- The words that an EAPOL frame changes.
unfoldable pub eapol_words :
    Vif → Station → AxParams → (eapol4_confirm : Bool) → (header_size : ℕ) → Pkt → Desc → Desc
eapol_words vif sta ax eapol4_confirm header_size p d =
    let sta_mode = is_station vif.ty in
    let w1 = if p.encap && sta_mode then or (2 ^ 12) (2 ^ 15) else or d.w1 (2 ^ 12) in
    let last = sta_mode && is_eapol_4 header_size p in
    record d {
      w0 =
          if sta_mode && not eapol4_confirm
          then or (len p - frame_desc_sz) (4 * 2 ^ 12) % 2 ^ 16
          else d.w0;
      w1 = if last then or w1 (2 ^ 10) else w1;
      w3 = 1;
      w4 = if sta_mode then sta.min_supported_rate else 0x0;
      w5 = if ax.enabled then 0 else d.w5;
      w6 = or d.w6 (2 ^ 13);
      confirm_frame_type = if last then 1 else d.confirm_frame_type;
      retry_cnt = 15;
    }

unfoldable pub eapol_priority : Vif → (eapol4_confirm : Bool) → Pkt → Pkt
eapol_priority vif eapol4_confirm p =
    if is_eapol vif p && (is_station vif.ty && eapol4_confirm)
    then record p { priority = vo_q }
    else p

-- A frame to a group.
unfoldable pub group_words : Ieee80211 → Cfg → Vif → Pkt → Desc → Desc
group_words k cfg vif p d =
    let dest = slice (if p.encap then 0 else 4) 6 p.bytes in
    let rate = if cfg.band_5ghz then 0x8b else 0x0 in
    if k.is_broadcast dest || k.is_multicast dest
    then record d {
      w3 = if p.encap then d.w3 else or 1 (2 ^ 9);
      w4 = if is_ap vif.ty || is_p2p_go vif.ty then rate else d.w4;
    }
    else d

unfoldable pub last_words : Ieee80211 → Vif → Pkt → Desc → Desc
last_words k vif p d =
    let more =
      (not p.encap && (is_ap vif.ty || is_p2p_go vif.ty)) && k.has_moredata (u16 p.bytes 0) in
    record d {
      w3 = if more then or d.w3 (2 ^ 1) else d.w3;
      w4 = or d.w4 (vif.vap_id * 2 ^ 14) % 2 ^ 16;
    }

unfoldable pub queue_words : Pkt → Desc → Desc
queue_words p d = record d {
  w7 = or (or (p.tid % 2 ^ 4 * 2 ^ 4) (p.priority % 2 ^ 4)) (p.sta_id * 2 ^ 8) % 2 ^ 16;
}

-- From the interface on. The state carries what the choice of the PPDU changes.
unfoldable pub data_desc_of :
    Ieee80211 → Cfg → (header_size : ℕ) → Vif → Pkt → Xmit → Prepared × Xmit
data_desc_of k cfg header_size vif p x =
    let sta = x.stations (station_of vif p) in
    let framed = data_frame_words k cfg sta header_size p in
    let (ax, d) = ax_words cfg vif x.ax (min_rate_words cfg framed) in
    let fixed = fixed_rate_words cfg d in
    let keyed =
      if is_eapol vif p
      then eapol_words vif sta ax x.eapol4_confirm header_size p fixed
      else fixed in
    let p₁ = set_pm cfg vif (eapol_priority vif x.eapol4_confirm p) in
    (
      ready (last_words k vif p₁ (group_words k cfg vif p₁ (queue_words p₁ keyed))) p₁,
      record x { ax = ax },
    )

-- How many bytes align the packet, once the header is before it.
unfoldable pub align_of : Cfg → Pkt → ℕ
align_of cfg p =
    if ((len p + p.misaligned) % 64 == 0) && cfg.usb_full_speed
    then p.misaligned + 1
    else p.misaligned

-- From the second push on.
unfoldable pub fill_data_desc : Ieee80211 → Cfg → (header_size : ℕ) → Pkt → Xmit → Prepared × Xmit
fill_data_desc k cfg header_size p₀ x =
    let p = record p₀ { internal_hdr_size = header_size } in
    elim (get_vif cfg.vifs (slice (if p.encap then 6 else 10) 6 p.bytes)) [
      | none ↦ (failed p, x)
      | some vif ↦ data_desc_of k cfg header_size vif p x
    ]

-- The descriptor, before the errors are reported.
unfoldable pub push_data_desc : Ieee80211 → Cfg → Pkt → Xmit → Prepared × Xmit
push_data_desc k cfg p x = if ltb p.headroom 20 then (failed p, x) else elim (skb_push 20 p) [
  | none ↦ (panic, x)
  | some p₁ ↦ if ltb p₁.headroom 20 then (failed p₁, x) else elim (skb_push (align_of cfg p₁) p₁) [
    | none ↦ (panic, x)
    | some p₂ ↦ fill_data_desc k cfg (20 + align_of cfg p₁) p₂ x
  ]
]

-- `++total_tx_pkt_freed[skb->priority]` and `rsi_indicate_tx_status`
unfoldable pub indicate_tx_status : Cfg → Pkt → Xmit → Xmit
indicate_tx_status cfg p x =
    if not cfg.has_hw || cfg.iface_down
    then x
    else record x { disposals = indicated (skb_pull p.internal_hdr_size p) ∷ x.disposals }

unfoldable pub count_freed : Pkt → Xmit → Xmit
count_freed p x = record x {
  total_tx_pkt_freed =
      update x.total_tx_pkt_freed p.priority ((x.total_tx_pkt_freed p.priority + 1) % 2 ^ 32);
}

-- `if (rsi_prepare_data_desc(...))`, with the errors reported.
unfoldable pub report : Cfg → Prepared → Xmit → Xmit
report cfg (ready d p) x = x
report cfg (failed p) x = indicate_tx_status cfg p (count_freed p x)
report cfg panic x = x

unfoldable pub prepare_data_desc : Ieee80211 → Cfg → Pkt → Xmit → Prepared × Xmit
prepare_data_desc k cfg p x =
    let (result, x₁) = push_data_desc k cfg p x in (result, report cfg result x₁)
