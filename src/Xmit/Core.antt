-- ===== src/Xmit/Core.antt =====
-- `rsi_core_xmit` of rsi/rsi_91x_core.c, built without CONFIG_RSI_WOW and CONFIG_TWT_SUPPORT. The
-- packet is not null.
use si91x_rcp_driver.Prelude.{
  ℕ, ◌+◌, ◌-◌, ◌*◌, ◌/◌, ◌%◌, ◌^◌, Bool, true, false, not, ◌&&◌, ◌||◌, Option, none, some, List,
  ◌∷◌, ◌++◌, ltb, ◌==◌, if◌then◌else◌, update,
}
use si91x_rcp_driver.Tx.State.{bk_q, be_q, vi_q, vo_q, mgmt_soft_q, SkBuff, q_len}
use si91x_rcp_driver.Tx.Queue.{queue_pkt}
use si91x_rcp_driver.Tx.Process.{Ac, bk, be, vi, vo, wme_ac}
use si91x_rcp_driver.Rx.{byte, u16}
use si91x_rcp_driver.Xmit.{
  Vif, Station, Pkt, len, Ieee80211, Cfg, Xmit, Desc, header, ready, failed, panic, freed, slice,
  find_sta, is_ap, is_p2p_go, is_station, peer,
}
use si91x_rcp_driver.Xmit.MgmtDesc.{prepare_mgmt_desc}
use si91x_rcp_driver.Xmit.DataDesc.{prepare_data_desc, indicate_tx_status, count_freed, is_eapol}

-- TID_TO_WME_AC
unfoldable pub tid_to_wme_ac : ℕ → ℕ
tid_to_wme_ac tid =
    if (tid == 0) || (tid == 3)
    then be_q
    else (if ltb tid 3 then bk_q else (if ltb tid 6 then vi_q else vo_q))

-- The state after the packet, or the panic of the kernel.
pub data Xmitted : Type 0 where
  done : Xmit → Xmitted
  crashed : Xmitted

unfoldable pub xmit_fail : Pkt → Xmit → Xmitted
xmit_fail p x = done (record x { disposals = freed p ∷ x.disposals })

-- `rsi_core_queue_pkt` and `rsi_set_event`, for the packet with its descriptor.
unfoldable pub skb_of : Desc → Pkt → SkBuff
skb_of d p = record { priority = p.priority; bytes = header d (p.pushed - 20) ++ p.bytes }

-- A packet with an invalid queue number is freed by rsi_core_queue_pkt.
unfoldable pub enqueue : Desc → Pkt → Xmit → Xmit
enqueue d p x =
    let (c, dropped) = queue_pkt x.common (skb_of d p) in
    record x {
      common = c;
      disposals = elim dropped [ none ↦ x.disposals | some skb ↦ freed p ∷ x.disposals ];
      events = x.events + 1;
    }

unfoldable pub stop_queue : Ac → Xmit → Xmit
stop_queue ac x = record x { stopped = ac ∷ x.stopped }

-- `skb_queue_len` is a `u32`, and so is the difference that it is compared with.
unfoldable pub over_limit : Cfg → ℕ → Xmit → Bool
over_limit cfg q x = ltb ((cfg.host_txq_maxlen q + 2 ^ 32 - 3) % 2 ^ 32) (q_len x.common q)

unfoldable pub stop_own : Ieee80211 → Cfg → ℕ → Xmit → Xmit
stop_own k cfg q x =
    let x₁ = if k.queue_stopped x.stopped (wme_ac q) then x else stop_queue (wme_ac q) x in
    if (x.common.edca_params vi_q).acm then stop_queue (wme_ac vi_q) x₁ else x₁

-- The queues that are stopped for the sake of others.
unfoldable pub stop_others : Xmit → Xmit
stop_others x =
    let c = x.common in
    if ltb (c.edca_params be_q).aifs (c.edca_params vi_q).aifs
    then (if ltb 5 (q_len c be_q)
        then stop_queue bk (stop_queue vo (stop_queue vi x))
        else (if ltb 10 (q_len c bk_q)
            then stop_queue vi (stop_queue vo x)
            else (if ltb 10 (q_len c vo_q) then stop_queue vi x else x)))
    else (if ltb 15 (q_len c vo_q)
        then stop_queue bk (stop_queue be (stop_queue vi x))
        else (if ltb 30 (q_len c vi_q)
            then stop_queue bk (stop_queue be x)
            else (if ltb 60 (q_len c be_q) then stop_queue bk x else x)))

-- The end of the function. The water mark that it looks up is not used.
unfoldable pub queue_and_stop : Ieee80211 → Cfg → (q_num : ℕ) → Desc → Pkt → Xmit → Xmit
queue_and_stop k cfg q_num d p x =
    let x₁ = enqueue d p x in
    if q_num == mgmt_soft_q
    then x₁
    else stop_others (if over_limit cfg q_num x₁ then stop_own k cfg q_num x₁ else x₁)

-- An association request is announced to the device first.
unfoldable pub notify_assoc : Cfg → Xmit → Xmit
notify_assoc cfg x₀ =
    let x = record x₀ { eapol4_confirm = false; start_bgscan = false } in
    elim cfg.notify_frame [
      | none ↦ x
      | some skb ↦ record x { common = (queue_pkt x.common skb).0; events = x.events + 1 }
    ]

unfoldable pub xmit_mgmt : Ieee80211 → Cfg → (scan_in_prog : Bool) → Pkt → Xmit → Xmitted
xmit_mgmt k cfg scan_in_prog p₀ x₀ =
    let fc = u16 p₀.bytes 0 in
    let x = if k.is_assoc_req fc || k.is_reassoc_req fc then notify_assoc cfg x₀ else x₀ in
    let p = record p₀ { priority = mgmt_soft_q } in
    elim (prepare_mgmt_desc k cfg x.stations scan_in_prog p) [
      | ready d p' ↦ done (queue_and_stop k cfg mgmt_soft_q d p' x)
      | failed p' ↦ xmit_fail p' x
      | panic ↦ crashed
    ]

-- The traffic class: the last three bits of the priority in an IP header, or the identifier in a
-- QoS header. ETH_P_IPV6 is 0x86dd; the `u8` and `ntohl` are written out.
unfoldable pub tos_of : List ℕ → ℕ
tos_of bytes =
    if u16 bytes 12 == 0xdd86
    then (byte bytes 14 * 2 ^ 24 + byte bytes 15 * 2 ^ 16) / 2 ^ 20 % 2 ^ 8 / 2 ^ 5
    else byte bytes 15 / 2 ^ 5

-- IEEE80211_NONQOS_TID is 16.
unfoldable pub classify : Ieee80211 → Pkt → Pkt
classify k p =
    if p.encap
    then record p { tid = tos_of p.bytes; priority = tid_to_wme_ac (tos_of p.bytes) }
    else (if k.is_data_qos (u16 p.bytes 0)
        then record p {
          tid = k.qos_ctl p.bytes % 2 ^ 4;
          priority = tid_to_wme_ac (k.qos_ctl p.bytes % 2 ^ 4);
        }
        else record p { tid = 16; priority = be_q })

unfoldable pub raise_broadcast : Ieee80211 → Vif → Pkt → Pkt
raise_broadcast k vif p =
    if is_ap vif.ty && k.is_broadcast (slice 4 6 p.bytes) then record p { priority = vo_q } else p

unfoldable pub dest_of : Pkt → List ℕ
dest_of p = slice (if p.encap then 0 else 4) 6 p.bytes

-- What the search for a station comes to: `goto xmit_fail`, or a station or none.
pub data Found : Type 0 where
  stop : Found
  found : Option ℕ → Found

-- The station of a frame to one receiver.
unfoldable pub find_receiver : Ieee80211 → Cfg → (ℕ → Station) → Pkt → Found
find_receiver k cfg stations p =
    let ty = cfg.vif.ty in
    if k.is_broadcast (dest_of p) || k.is_multicast (dest_of p)
    then found none
    else (if is_ap ty || is_p2p_go ty
        then elim (find_sta k cfg stations (dest_of p)) [ none ↦ stop | some i ↦ found (some i) ]
        else (if is_station ty then found (some peer) else found none))

-- The station of a frame that has none yet.
unfoldable pub find_any : Ieee80211 → Cfg → (ℕ → Station) → Pkt → Option ℕ
find_any k cfg stations p =
    if is_ap cfg.vif.ty
    then find_sta k cfg stations (dest_of p)
    else (if is_station cfg.vif.ty then some peer else none)

unfoldable pub start_ba : ℕ → Pkt → Xmit → Xmit
start_ba i p x =
    let sta = x.stations i in
    if not (sta.start_tx_aggr p.tid) && not p.port_ctrl
    then record x {
      stations =
          update x.stations i (record sta { start_tx_aggr = update sta.start_tx_aggr p.tid true });
      ba_sessions = (i, p.tid) ∷ x.ba_sessions;
    }
    else x

unfoldable pub to_mgmt : Vif → Pkt → Pkt
to_mgmt vif p = if is_eapol vif p then record p { priority = mgmt_soft_q } else p

-- From the descriptor on; `q_num` is the priority before the descriptor may change it.
unfoldable pub xmit_desc : Ieee80211 → Cfg → Pkt → Xmit → Xmitted
xmit_desc k cfg p₀ x₀ =
    let p = to_mgmt cfg.vif p₀ in
    let (result, x) = prepare_data_desc k cfg p x₀ in
    elim result [
      | ready d p' ↦ done (queue_and_stop k cfg p.priority d p' x)
      | failed p' ↦ xmit_fail p' x
      | panic ↦ crashed
    ]

unfoldable pub xmit_to : Ieee80211 → Cfg → Pkt → Xmit → Xmitted
xmit_to k cfg p x = elim (find_receiver k cfg x.stations p) [
  | stop ↦ xmit_fail p x
  | found o ↦ elim o [
    | some i ↦ xmit_desc k cfg (record p { sta_id = (x.stations i).sta_id }) (start_ba i p x)
    | none ↦ elim (find_any k cfg x.stations p) [
      | none ↦ xmit_fail p x
      | some i ↦ xmit_desc k cfg (record p { sta_id = (x.stations i).sta_id }) x
    ]
  ]
]

-- Null frames during a background scan are left to the device.
unfoldable pub xmit_data : Ieee80211 → Cfg → Pkt → Xmit → Xmitted
xmit_data k cfg p x =
    let fc = u16 p.bytes 0 in
    if (not p.encap && (is_station cfg.vif.ty && cfg.bgscan_en))
      && (k.is_qos_nullfunc fc || k.is_nullfunc fc)
    then done (indicate_tx_status cfg p (count_freed p x))
    else xmit_to k cfg (raise_broadcast k cfg.vif (classify k p)) x

unfoldable pub core_xmit : Ieee80211 → Cfg → (scan_in_prog : Bool) → Pkt → Xmit → Xmitted
core_xmit k cfg scan_in_prog p x =
    let fc = u16 p.bytes 0 in
    if (len p == 0) || not cfg.mac_init_done
    then xmit_fail p x
    else (if not p.encap && (k.is_mgmt fc || (k.is_ctl fc || k.is_qos_nullfunc fc))
        then xmit_mgmt k cfg scan_in_prog p x
        else xmit_data k cfg p x)
