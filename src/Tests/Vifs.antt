-- ===== src/Tests/Vifs.antt =====
-- A driver without interfaces, and one with two.
use si91x_rcp_driver.Prelude.{
  ℕ, ◌≡◌, refl, Bool, true, false, none, some, [], ◌==◌, if◌then◌else◌, arith,
}
use si91x_rcp_driver.Stations.State.{Mac}
use si91x_rcp_driver.Vifs.{
  IfType, Opmode, Vif, Ifs, oops, removed_mode, rsi_mac80211_add_interface,
  rsi_mac80211_remove_interface,
}
use si91x_rcp_driver.Vifs.Rejoin.{Rejoins, rsi_mac80211_add_interface-Rejoins}
use si91x_rcp_driver.Vifs.Lost.{
  rsi_mac80211_add_interface_oops, Stale, rsi_mac80211_add_interface-Stale,
}

abbrev no_stations : Mac
no_stations = record {
  stations = λ i. record { sta = none; sta_id = 0; seq_no = []; start_tx_aggr = [] };
  num_stations = 0;
  max_stations = 2;
  key = none;
  min_rate = 0xffff;
  hw_data_qs_blocked = false;
  peer_notify_state = false;
  sta_bssid = 0;
  traffic_timer = false;
  sgi = false;
  queue = [];
  allocs = 0;
}

abbrev no_interfaces : Ifs
no_interfaces = record {
  vifs = λ i. none;
  sc_nvifs = 0;
  p2p_enabled = false;
  last_vap_id = 0;
  sniffer = false;
  vif_id = λ i. 0;
  rx_pn_valid = λ i. true;
  last_vap_type = none;
  last_vap_addr = 0;
  bc_mc_seqno = 0;
  mac = no_stations;
  frames = [];
}

abbrev wlan : Vif
wlan = record { id = 1; ty = IfType.station; addr = 11; assoc = false }

abbrev device : Vif
device = record { id = 2; ty = IfType.p2p_device; addr = 12; assoc = false }

abbrev group : Vif
group = record { id = 3; ty = IfType.p2p_go; addr = 13; assoc = false }

abbrev hotspot : Vif
hotspot = record { id = 4; ty = IfType.ap; addr = 14; assoc = false }

abbrev always : ℕ → Bool
always n = true

rsi_mac80211_add_interface-Rejoins_example :
    Rejoins always wlan no_interfaces (rsi_mac80211_add_interface always wlan no_interfaces)
rsi_mac80211_add_interface-Rejoins_example =
    rsi_mac80211_add_interface-Rejoins always wlan no_interfaces refl

abbrev two_interfaces : Ifs
two_interfaces = record no_interfaces {
  vifs = λ i. if i == 0 then some wlan else if i == 1 then some device else none;
  sc_nvifs = 2;
  p2p_enabled = true;
}

rsi_mac80211_add_interface_oops_example :
    rsi_mac80211_add_interface always group
      (rsi_mac80211_remove_interface always wlan two_interfaces)
    ≡ oops
unfolding removed_mode
rsi_mac80211_add_interface_oops_example =
    rsi_mac80211_add_interface_oops always Opmode.sta_opmode wlan group two_interfaces refl refl
      refl refl

abbrev left_over : Ifs
left_over = record no_interfaces { mac = record no_stations { num_stations = 1 } }

table_and_count : Stale (rsi_mac80211_add_interface always hotspot left_over)
table_and_count =
    rsi_mac80211_add_interface-Stale always hotspot left_over (λ n. refl) refl refl refl
      (omega arith)
