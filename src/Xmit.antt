-- ===== src/Xmit.antt =====
-- The way of a packet from mac80211 into a queue: `rsi_core_xmit` of rsi/rsi_91x_core.c, and the
-- descriptors that rsi/rsi_91x_hal.c puts before it. This file has the packet, the stations and the
-- state that both change.
pub mod MgmtDesc
pub mod DataDesc
pub mod Core
pub mod Bounds
pub mod Queued
pub mod Once
pub mod Twice
pub mod Sent
pub mod Send
pub mod Words
pub mod Header
use Prim.Native.Nat.{bit_or}
use si91x_rcp_driver.Prelude.{
  ℕ, zero, suc, ◌+◌, ◌-◌, ◌*◌, ◌/◌, ◌%◌, ◌^◌, Bool, true, false, not, ◌&&◌, ◌||◌, Option, none,
  some, List, [], ◌∷◌, ◌++◌, take, drop, length, ltb, ◌==◌, if◌then◌else◌, update,
}
use si91x_rcp_driver.Tx.State.{SkBuff, Common}
use si91x_rcp_driver.Tx.Process.{Ac}

-- enum nl80211_iftype, as far as the driver tells the types apart
pub data IfType : Type 0 where
  station ap p2p_go other : IfType

pub record Vif : Type 0 where
  pub ty : IfType
  pub addr : List ℕ
  pub vap_id : ℕ

-- `struct rsi_sta`. If `present` is false, `sta` is null, and what is read through it is anything.
-- The cell 16 of `start_tx_aggr` is the byte behind the array.
pub record Station : Type 0 where
  pub present : Bool
  pub addr : List ℕ
  pub wme : Bool
  pub min_supported_rate : ℕ  -- of the copy in drv_priv
  pub sta_id : ℕ
  pub start_tx_aggr : ℕ → Bool

-- `struct sk_buff` with the control block: `headroom` bytes are free before `bytes`, `misaligned` is
-- `data & 0x3f`, and `pushed` bytes have been put before `bytes`.
pub record Pkt : Type 0 where
  pub bytes : List ℕ
  pub priority : ℕ
  pub protocol : ℕ
  pub encap : Bool  -- ENCAP_OFFLOAD_EN
  pub dont_encrypt : Bool  -- IEEE80211_TX_INTFL_DONT_ENCRYPT
  pub hw_key : Bool
  pub port_ctrl : Bool  -- IEEE80211_TX_CTRL_PORT_CTRL_PROTO
  pub tid : ℕ
  pub sta_id : ℕ
  pub internal_hdr_size : ℕ
  pub headroom : ℕ
  pub misaligned : ℕ
  pub pushed : ℕ

-- `skb->len`
abbrev pub len : Pkt → ℕ
len p = p.pushed + length p.bytes

-- `skb_push`: `none` is its panic when the headroom is too small.
unfoldable pub skb_push : ℕ → Pkt → Option Pkt
skb_push n p =
    if ltb p.headroom n
    then none
    else some (record p {
      headroom = p.headroom - n;
      misaligned = (p.misaligned + 64 * n - n) % 64;
      pushed = p.pushed + n;
    })

unfoldable pub skb_pull : ℕ → Pkt → Pkt
skb_pull n p = if ltb (len p) n then p else record p {
  headroom = p.headroom + n;
  misaligned = (p.misaligned + n) % 64;
  pushed = p.pushed - n;
  bytes = drop (n - p.pushed) p.bytes;
}

-- The helpers of the kernel for frame controls and addresses.
pub record Ieee80211 : Type 0 where
  pub is_mgmt : ℕ → Bool
  pub is_ctl : ℕ → Bool
  pub is_qos_nullfunc : ℕ → Bool
  pub is_nullfunc : ℕ → Bool
  pub is_data_qos : ℕ → Bool
  pub is_assoc_req : ℕ → Bool
  pub is_reassoc_req : ℕ → Bool
  pub is_probe_req : ℕ → Bool
  pub is_probe_resp : ℕ → Bool
  pub is_beacon : ℕ → Bool
  pub is_action : ℕ → Bool
  pub has_moredata : ℕ → Bool
  pub has_protected : ℕ → Bool
  pub is_broadcast : List ℕ → Bool
  pub is_multicast : List ℕ → Bool
  pub seq_to_sn : ℕ → ℕ
  pub qos_ctl : List ℕ → ℕ  -- the byte at ieee80211_get_qos_ctl
  pub queue_stopped : List Ac → Ac → Bool  -- given the queues stopped so far, last one first

-- `adapter->ax_params`
pub record AxParams : Type 0 where
  pub enabled : Bool
  pub coding_type : ℕ
  pub nominal_pe : ℕ
  pub ul_dl : ℕ
  pub he_ppdu_type : ℕ
  pub beam_change : ℕ
  pub bw : ℕ
  pub stbc : ℕ
  pub tx_bf : ℕ
  pub gi_ltf : ℕ
  pub dcm : ℕ
  pub nsts_midamble : ℕ

-- What transmission reads of `struct rsi_common` and `struct rsi_hw`. `vif` is the last interface,
-- which it takes to be there, and `vifs` are the addresses that `rsi_get_vif` searches.
pub record Cfg : Type 0 where
  pub has_hw : Bool
  pub iface_down : Bool
  pub mac_init_done : Bool  -- fsm_state == FSM_MAC_INIT_DONE
  pub vif : Vif
  pub vifs : List (Option Vif)
  pub max_stations : ℕ
  pub bgscan_en : Bool
  pub usb_full_speed : Bool
  pub ps_enabled : Bool
  pub cipher_wep : Bool  -- rsi_is_cipher_wep
  pub min_rate : ℕ
  pub ht40 : Bool
  pub sgi : Bool
  pub fixed_rate_en : Bool
  pub fixed_rate : ℕ
  pub enable_er_su : Bool
  pub config_er_su : ℕ
  pub band_2ghz : Bool
  pub band_5ghz : Bool
  pub p2p_enabled : Bool
  pub minimum_basic_rate : ℕ
  pub host_txq_maxlen : ℕ → ℕ
  pub notify_frame : Option SkBuff  -- what rsi_send_sta_notify_frame builds, if it gets a buffer

-- How a packet leaves the driver's hands.
pub data Disposal : Type 0 where
  freed : Pkt → Disposal  -- ieee80211_free_txskb
  indicated : Pkt → Disposal  -- ieee80211_tx_status_irqsafe

-- What transmission changes. `disposals`, `stopped` (ieee80211_stop_queue) and `ba_sessions` have
-- the last one first.
pub record Xmit : Type 0 where
  pub common : Common
  pub stations : ℕ → Station
  pub ax : AxParams
  pub eapol4_confirm : Bool
  pub start_bgscan : Bool
  pub total_tx_pkt_freed : ℕ → ℕ
  pub disposals : List Disposal
  pub stopped : List Ac
  pub ba_sessions : List (ℕ × ℕ)
  pub events : ℕ

-- The words of a descriptor, and the extended descriptor.
pub record Desc : Type 0 where
  pub w0 : ℕ
  pub w1 : ℕ
  pub w2 : ℕ
  pub w3 : ℕ
  pub w4 : ℕ
  pub w5 : ℕ
  pub w6 : ℕ
  pub w7 : ℕ
  pub confirm_frame_type : ℕ
  pub retry_cnt : ℕ

abbrev pub no_desc : Desc
no_desc = record {
  w0 = 0;
  w1 = 0;
  w2 = 0;
  w3 = 0;
  w4 = 0;
  w5 = 0;
  w6 = 0;
  w7 = 0;
  confirm_frame_type = 0;
  retry_cnt = 0;
}

-- A `__le16`
abbrev pub le16 : ℕ → List ℕ
le16 w = w % 2 ^ 8 ∷ w / 2 ^ 8 % 2 ^ 8 ∷ []

pub zeros : ℕ → List ℕ
zeros zero = []
zeros (suc n) = 0 ∷ zeros n

-- The header of 20 bytes and the alignment, as the packet starts with them.
unfoldable pub header : Desc → ℕ → List ℕ
header d align =
    le16 d.w0
    ++ (le16 d.w1
        ++ (le16 d.w2
            ++ (le16 d.w3
                ++ (le16 d.w4
                    ++ (le16 d.w5
                        ++ (le16 d.w6
                            ++ (le16 d.w7
                                ++ (d.confirm_frame_type ∷ d.retry_cnt ∷ 0 ∷ 0 ∷ zeros align))))))))

-- How the descriptor of a packet ends.
pub data Prepared : Type 0 where
  ready : Desc → Pkt → Prepared
  failed : Pkt → Prepared
  panic : Prepared

abbrev pub eth_p_pae : ℕ
eth_p_pae = 0x888e

abbrev pub eth_p_802_3 : ℕ
eth_p_802_3 = 0x0001

-- A frame control, an address and a sequence control in a frame, and the addresses of Ethernet
unfoldable pub slice : ℕ → ℕ → List ℕ → List ℕ
slice from n bytes = take n (drop from bytes)

-- `memcmp` of two addresses
unfoldable pub same_addr : List ℕ → List ℕ → Bool
same_addr [] [] = true
same_addr [] (y ∷ ys) = false
same_addr (x ∷ xs) [] = false
same_addr (x ∷ xs) (y ∷ ys) = (x == y) && same_addr xs ys

unfoldable pub get_vif : List (Option Vif) → List ℕ → Option Vif
get_vif [] mac = none
get_vif (none ∷ vifs) mac = get_vif vifs mac
get_vif (some v ∷ vifs) mac = if same_addr v.addr mac then some v else get_vif vifs mac

-- `rsi_find_sta`: the number of a station from `i` on, of `n`.
unfoldable pub find_from : Ieee80211 → (ℕ → Station) → (i n : ℕ) → List ℕ → Option ℕ
find_from k stations i zero mac = none
find_from k stations i (suc n) mac =
    let rest = find_from k stations (suc i) n mac in
    if not (stations i).present
    then rest
    else (if k.is_broadcast mac || same_addr (stations i).addr mac then some i else rest)

unfoldable pub find_sta : Ieee80211 → Cfg → (ℕ → Station) → List ℕ → Option ℕ
find_sta k cfg stations mac = find_from k stations 0 cfg.max_stations mac

unfoldable pub is_ap : IfType → Bool
is_ap ap = true
is_ap t = false

unfoldable pub is_p2p_go : IfType → Bool
is_p2p_go p2p_go = true
is_p2p_go t = false

unfoldable pub is_station : IfType → Bool
is_station station = true
is_station t = false

-- `w |= bits`
abbrev pub or : ℕ → ℕ → ℕ
or w bits = bit_or w bits

-- RSI_MAX_ASSOC_STAS, where the peer of a station stands
abbrev pub peer : ℕ
peer = 32

abbrev pub frame_desc_sz : ℕ
frame_desc_sz = 16
