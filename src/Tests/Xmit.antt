-- ===== src/Tests/Xmit.antt =====
-- Packets from mac80211 on their way into a queue.
use si91x_rcp_driver.Prelude.{
  ℕ, ◌+◌, ◌%◌, ◌≡◌, ◌&&◌, refl, true, false, some, none, List, [], ◌∷◌, leb, ltb, arith, ◌==◌,
}
use si91x_rcp_driver.Tx.State.{Common}
use si91x_rcp_driver.Xmit.{IfType, station, Vif, Station, Pkt, len, Ieee80211, AxParams, Cfg, Xmit}
use si91x_rcp_driver.Xmit.DataDesc.{push_data_desc, align_of}
use si91x_rcp_driver.Xmit.Core.{core_xmit}
use si91x_rcp_driver.Xmit.Bounds.{is_panic, behind_header, push_data_desc-panics}
use si91x_rcp_driver.Tx.Process.{Lower}
use si91x_rcp_driver.Xmit.Send.{
  Air, Out, Sender, send_data_pkt, send_bt_pkt, send_zb_pkt, send_mgmt_pkt,
}
use si91x_rcp_driver.Xmit.Send.Fate.{Given, MgmtGiven, sends-Given}
use si91x_rcp_driver.Xmit.Twice.{Twice, core_xmit-Twice}
use si91x_rcp_driver.Xmit.Header.{Reads, push_data_desc-Reads}

-- Frame controls: 0x88 is QoS data.
abbrev kernel : Ieee80211
kernel = record {
  is_mgmt = λ fc. ltb (fc % 16) 4;
  is_ctl = λ fc. fc % 16 == 4;
  is_qos_nullfunc = λ fc. fc == 0xc8;
  is_nullfunc = λ fc. fc == 0x48;
  is_data_qos = λ fc. fc == 0x88;
  is_assoc_req = λ fc. fc == 0;
  is_reassoc_req = λ fc. fc == 0x20;
  is_probe_req = λ fc. fc == 0x40;
  is_probe_resp = λ fc. fc == 0x50;
  is_beacon = λ fc. fc == 0x80;
  is_action = λ fc. fc == 0xd0;
  has_moredata = λ fc. false;
  has_protected = λ fc. false;
  is_broadcast = λ addr. false;
  is_multicast = λ addr. false;
  seq_to_sn = λ seq. 5;
  qos_ctl = λ bytes. 6;
  queue_stopped = λ stopped ac. false;
}

abbrev own : List ℕ
own = 2 ∷ 0 ∷ 0 ∷ 0 ∷ 0 ∷ 1 ∷ []

abbrev sta_vif : Vif
sta_vif = record { ty = station; addr = own; vap_id = 0 }

abbrev cfg : Cfg
cfg = record {
  has_hw = true;
  iface_down = false;
  mac_init_done = true;
  vif = sta_vif;
  vifs = some sta_vif ∷ [];
  max_stations = 4;
  bgscan_en = false;
  usb_full_speed = true;
  ps_enabled = true;
  cipher_wep = false;
  min_rate = 0xffff;
  ht40 = false;
  sgi = false;
  fixed_rate_en = false;
  fixed_rate = 0;
  enable_er_su = false;
  config_er_su = 0;
  band_2ghz = true;
  band_5ghz = false;
  p2p_enabled = false;
  minimum_basic_rate = 0;
  host_txq_maxlen = λ q. 20;
  notify_frame = none;
}

-- A frame to an access point: two bytes of frame control and two of duration, three addresses, the
-- sequence control, and two bytes more.
abbrev qos_frame : List ℕ
qos_frame =
    0x88 ∷ 0 ∷ 0 ∷ 0 ∷ 4 ∷ 0 ∷ 0 ∷ 0 ∷ 0 ∷ 7 ∷ 2 ∷ 0 ∷ 0 ∷ 0 ∷ 0 ∷ 1 ∷ 4 ∷ 0 ∷ 0 ∷ 0 ∷ 0 ∷ 7 ∷ 0 ∷ 0
    ∷ 6 ∷ 0 ∷ []

abbrev packet : ℕ → Pkt
packet room = record {
  bytes = qos_frame;
  priority = 0;
  protocol = 0x0800;
  encap = false;
  dont_encrypt = false;
  hw_key = true;
  port_ctrl = false;
  tid = 0;
  sta_id = 0;
  internal_hdr_size = 0;
  headroom = room;
  misaligned = 30;
  pushed = 0;
}

abbrev no_ax : AxParams
no_ax = record {
  enabled = false;
  coding_type = 0;
  nominal_pe = 0;
  ul_dl = 0;
  he_ppdu_type = 0;
  beam_change = 0;
  bw = 0;
  stbc = 0;
  tx_bf = 0;
  gi_ltf = 0;
  dcm = 0;
  nsts_midamble = 0;
}

abbrev a_station : Station
a_station = record {
  present = true;
  addr = 4 ∷ 0 ∷ 0 ∷ 0 ∷ 0 ∷ 7 ∷ [];
  wme = true;
  min_supported_rate = 0;
  sta_id = 1;
  start_tx_aggr = λ tid. false;
}

abbrev empty_common : Common
empty_common = record {
  tx_queue = λ q. [];
  tx_qinfo = λ q. record { weight = 10; wme_params = 10; pkt_contended = false };
  edca_params = λ q. record { txop = 0; cw_min = 3; aifs = 2; acm = false };
  min_weight = 0;
  pkt_cnt = 0;
  selected_qnum = 0;
  hw_data_qs_blocked = false;
  hibernate_resume = false;
  peer_notify = false;
  total_tx_pkt_send = λ q. 0;
}

abbrev before : Xmit
before = record {
  common = empty_common;
  stations = λ i. a_station;
  ax = no_ax;
  eapol4_confirm = false;
  start_bgscan = false;
  total_tx_pkt_freed = λ q. 0;
  disposals = [];
  stopped = [];
  ba_sessions = [];
  events = 0;
}

core_xmit-Twice_example :
    Twice (packet 10).bytes before (core_xmit kernel cfg false (packet 10) before)
core_xmit-Twice_example =
    core_xmit-Twice kernel cfg false (packet 10) before refl refl refl (omega arith) refl
      (omega arith) refl refl

push_data_desc-panics_example :
    is_panic (push_data_desc kernel cfg (packet 29) before).0
    ≡ leb 40 29 && ltb 29 (20 + align_of cfg (behind_header (packet 29)))
push_data_desc-panics_example = push_data_desc-panics kernel cfg (packet 29) before

push_data_desc-Reads_example :
    Reads sta_vif false (packet 100) (push_data_desc kernel cfg (packet 100) before).0
unfolding si91x_rcp_driver.Xmit.get_vif si91x_rcp_driver.Xmit.slice si91x_rcp_driver.Xmit.same_addr
push_data_desc-Reads_example =
    push_data_desc-Reads kernel cfg (packet 100) before sta_vif refl refl (omega arith)

abbrev open_air : Lower
open_air = record {
  room = λ tr q. true;
  stopped = λ tr a. false;
  fails = λ tr q skb. false;
  hw = true;
}

-- Power save lets a packet through when it asks.
abbrev asleep : Air
asleep = record {
  has_access = false;
  gets_access = true;
  takes = λ bytes. true;
  assoc = true;
  bssid = 4 ∷ 0 ∷ 0 ∷ 0 ∷ 0 ∷ 7 ∷ [];
  on_channel = true;
}

abbrev null_out : Out
null_out = record {
  bytes = 0xc8 ∷ 0 ∷ 0 ∷ 0 ∷ 4 ∷ 0 ∷ 0 ∷ 0 ∷ 0 ∷ 7 ∷ 2 ∷ 0 ∷ 0 ∷ 0 ∷ 0 ∷ 1 ∷ [];
  priority = 4;
  encap = false;
  internal = false;
  has_vif = true;
  req_status = true;
  internal_hdr_size = 0;
  headroom = 20;
  pkt_type = 1;
}

abbrev sender : Sender
sender = record { acts = []; total_tx_pkt_freed = λ q. 0; awaited = none }

sends-Given_example :
    Given 1 sender (send_data_pkt cfg asleep null_out sender).1
    × Given 1 sender (send_bt_pkt true asleep null_out sender).1
    × Given 1 sender (send_zb_pkt asleep null_out sender).1
    × MgmtGiven kernel null_out sender
        (send_mgmt_pkt kernel cfg asleep (λ i. a_station) null_out sender)
sends-Given_example = sends-Given cfg refl refl kernel true asleep (λ i. a_station) null_out sender
