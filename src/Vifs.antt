-- ===== src/Vifs.antt =====
-- The interfaces of the driver: `rsi_mac80211_add_interface` and `rsi_mac80211_remove_interface` of
-- rsi/rsi_91x_mac80211.c, for a driver that is up and without U-APSD.
pub mod Rejoin
pub mod Lost
use si91x_rcp_driver.Prelude.{
  ℕ, zero, suc, ◌+◌, ◌-◌, ◌%◌, ◌^◌, Bool, true, false, not, ◌&&◌, ◌||◌, Option, none, some, List,
  ◌∷◌, ltb, leb, ◌==◌, if◌then◌else◌, update,
}
use si91x_rcp_driver.Stations.State.{Mac}
use si91x_rcp_driver.Stations.Notify.{no_rate}
use si91x_rcp_driver.Stations.Table.{clear_stations}

-- enum nl80211_iftype; `other` are the types that the driver does not know.
pub data IfType : Type 0 where
  station ap p2p_device p2p_go p2p_client monitor other : IfType

pub data Opmode : Type 0 where
  ap_opmode sta_opmode p2p_go_opmode p2p_client_opmode : Opmode

pub data VapStatus : Type 0 where
  vap_add vap_delete vap_update : VapStatus

-- struct ieee80211_vif; `id` stands for its address in memory, and `assoc` is `cfg.assoc`.
pub record Vif : Type 0 where
  pub id : ℕ
  pub ty : IfType
  pub addr : ℕ
  pub assoc : Bool

-- Frames about interfaces.
pub data Request : Type 0 where
  vap_caps : Opmode → (addr vap_id : ℕ) → VapStatus → Request
  rx_filter : (flags : ℕ) → Request

-- `vif_id` (its `vap_id`) and `rx_pn_valid` are in the private part of an interface; `frames` has the
-- last one first.
pub record Ifs : Type 0 where
  pub vifs : ℕ → Option Vif
  pub sc_nvifs : ℕ
  pub p2p_enabled : Bool
  pub last_vap_id : ℕ
  pub sniffer : Bool  -- driver_mode is SNIFFER_MODE
  pub vif_id : ℕ → ℕ
  pub rx_pn_valid : ℕ → Bool
  pub last_vap_type : Option Opmode
  pub last_vap_addr : ℕ
  pub bc_mc_seqno : ℕ
  pub mac : Mac
  pub frames : List Request

-- What a callback of the kernel ends with: its status, or a read through a null pointer.
pub data Outcome : Type 0 where
  done : Ifs → Outcome
  failed : Ifs → Outcome
  oops : Outcome

abbrev pub rsi_max_vifs : ℕ
rsi_max_vifs = 3

-- DISALLOW_BEACONS
abbrev pub disallow_beacons : ℕ
disallow_beacons = 2 ^ 4

abbrev pub is_p2p_device : IfType → Bool
is_p2p_device p2p_device = true
is_p2p_device t = false

abbrev pub is_access_point : IfType → Bool
is_access_point ap = true
is_access_point p2p_go = true
is_access_point t = false

-- The operating mode, and whether the type turns P2P on; `none` is an unsupported mode.
unfoldable pub intf_mode : IfType → Option (Opmode × Bool)
intf_mode station = some (sta_opmode, false)
intf_mode ap = some (ap_opmode, false)
intf_mode p2p_device = some (sta_opmode, true)
intf_mode p2p_go = some (p2p_go_opmode, true)
intf_mode p2p_client = some (p2p_client_opmode, true)
intf_mode monitor = some (sta_opmode, false)
intf_mode other = none

abbrev pub hosts : Opmode → Bool
hosts ap_opmode = true
hosts p2p_go_opmode = true
hosts m = false

-- The slot that the interface gets, and the count.
unfoldable pub place_vif : Vif → Ifs → Ifs
place_vif v s =
    if leb rsi_max_vifs s.sc_nvifs
    then record s { vifs = update s.vifs (s.sc_nvifs - 1) (some v) }
    else record s { vifs = update s.vifs s.sc_nvifs (some v); sc_nvifs = s.sc_nvifs + 1 }

-- `vap_id`, and whether the device has the interface already.
unfoldable pub assign : Opmode → Vif → Ifs → Ifs × VapStatus
assign mode v s =
    if not s.p2p_enabled
    then (record s { vif_id = update s.vif_id v.id 0; last_vap_id = 0 }, vap_add)
    else if hosts mode
    then (record s { vif_id = update s.vif_id v.id ((s.last_vap_id + 1) % 2 ^ 8) }, vap_add)
    else (record s { vif_id = update s.vif_id v.id s.last_vap_id }, vap_update)

-- The types that the switch of the removal knows.
unfoldable pub removed_mode : IfType → Option Opmode
removed_mode station = some sta_opmode
removed_mode ap = some ap_opmode
removed_mode p2p_client = some p2p_client_opmode
removed_mode p2p_go = some p2p_go_opmode
removed_mode t = none

unfoldable pub is_vif : Vif → Option Vif → Bool
is_vif v none = false
is_vif v (some w) = w.id == v.id

unfoldable pub fresh_pn : Vif → Ifs → Ifs
fresh_pn v s = record s { rx_pn_valid = update s.rx_pn_valid v.id false }

-- A builder of a frame: the buffer is there or not.
module _ (room : ℕ → Bool) where
  unfoldable pub request : Request → Ifs → Bool × Ifs
  request r s =
      let s' = record s { mac = record s.mac { allocs = s.mac.allocs + 1 } } in
      if room s.mac.allocs then (true, record s' { frames = r ∷ s'.frames }) else (false, s')

  unfoldable pub rsi_set_vap_capabilities : Opmode → Vif → VapStatus → Ifs → Bool × Ifs
  rsi_set_vap_capabilities mode v status s =
      let sent = request (vap_caps mode v.addr (s.vif_id v.id) status) s in
      if sent.0
      then (true, record sent.1 { last_vap_type = some mode; last_vap_addr = v.addr })
      else sent

  -- An access point starts with an empty table.
  unfoldable pub start_access_point : Ifs → Ifs
  start_access_point s =
      let s₁ = (request (rx_filter disallow_beacons) (record s { bc_mc_seqno = 1 })).1 in
      record s₁ { mac = clear_stations (record s₁.mac { min_rate = no_rate }) }

  -- From the switch on.
  unfoldable pub add_mode : Opmode → (p2p : Bool) → Vif → Ifs → Outcome
  add_mode mode p2p v s =
      let s₁ = place_vif v (if p2p then record s { p2p_enabled = true } else s) in
      let a = assign mode v s₁ in
      if a.0.sniffer
      then done a.0
      else (let sent = rsi_set_vap_capabilities mode v a.1 a.0 in
          if sent.0
          then done (
              if is_access_point v.ty
              then start_access_point (fresh_pn v sent.1)
              else fresh_pn v sent.1)
          else failed sent.1)

  unfoldable pub add_known : Option (Opmode × Bool) → Vif → Ifs → Outcome
  add_known none v s = failed s
  add_known (some (mode, p2p)) v s = add_mode mode p2p v s

  -- `adapter->vifs[0]->cfg.assoc`, where another interface is there.
  unfoldable pub add_beside : Option Vif → Vif → Ifs → Outcome
  add_beside none v s = oops
  add_beside (some first) v s = if first.assoc then failed s else add_known (intf_mode v.ty) v s

  unfoldable pub rsi_mac80211_add_interface : Vif → Ifs → Outcome
  rsi_mac80211_add_interface v s =
      if ltb 0 s.sc_nvifs
      then (if not s.p2p_enabled && not (is_p2p_device v.ty)
          then failed s
          else add_beside (s.vifs 0) v s)
      else add_known (intf_mode v.ty) v s

  -- `adapter->sc_nvifs--`, and for a known type the rest.
  unfoldable pub take_away : Option Opmode → Vif → (i : ℕ) → Ifs → Ifs
  take_away none v i s = record s { sc_nvifs = s.sc_nvifs - 1 }
  take_away (some mode) v i s =
      let s₁ =
        (rsi_set_vap_capabilities mode v vap_delete (record s { sc_nvifs = s.sc_nvifs - 1 })).1 in
      record s₁ { vifs = update s₁.vifs i none }

  -- The loop from `i` on, with `left` slots to go.
  unfoldable pub remove_loop : (left i : ℕ) → Vif → Ifs → Ifs
  remove_loop zero i v s = s
  remove_loop (suc left) i v s =
      let rest = remove_loop left (i + 1) v s in
      if is_vif v (s.vifs i) then take_away (removed_mode v.ty) v i s else rest

  unfoldable pub rsi_mac80211_remove_interface : Vif → Ifs → Ifs
  rsi_mac80211_remove_interface v s = if s.sc_nvifs == 0 then s else remove_loop rsi_max_vifs 0 v s
