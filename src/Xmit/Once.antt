-- ===== src/Xmit/Once.antt =====
-- Where a packet that `rsi_core_xmit` (rsi/rsi_91x_core.c) is given ends up.
use si91x_rcp_driver.Prelude.{
  ℕ, ◌≤◌, ◌<◌, ◌≡◌, Bool, not, ◌&&◌, ◌||◌, some, List, ◌==◌, if◌then◌else◌, arith,
}
use si91x_rcp_driver.Rx.{u16}
use si91x_rcp_driver.Xmit.{
  Vif, Pkt, len, Ieee80211, Cfg, Xmit, Desc, Prepared, ready, slice, get_vif,
}
use si91x_rcp_driver.Xmit.Core.{classify}
use si91x_rcp_driver.Xmit.Queued.{Framed, Same, announced}

-- The address of the sender
abbrev pub source : Pkt → List ℕ
source p = slice (if p.encap then 6 else 10) 6 p.bytes

-- The descriptor of a data frame is ready, in a queue that there is.
abbrev Ready : Cfg → (bs : List ℕ) → Xmit → Prepared × Xmit → Type 0
Ready cfg bs x r =
    (d : Desc) × (p' : Pkt) × (x' : Xmit) × (r ≡ (ready d p', x'))
    × (p'.priority < 6)
    × Framed cfg bs p'.bytes
    × Same x x'

-- A packet with the frame `bs`, room for its header, from an interface, and in a queue that there is.
abbrev Sendable : Cfg → (bs : List ℕ) → Pkt → Type 0
Sendable cfg bs p =
    ((vif : Vif) × (get_vif cfg.vifs (source p) ≡ some vif))
    × (84 ≤ p.headroom)
    × (p.priority < 6)
    × (p.bytes ≡ bs)

pub classify-bytes : (k : Ieee80211) (p : Pkt) → (classify k p).bytes ≡ p.bytes
unfolding classify
classify-bytes k p = ground arith

pub classify-headroom : (k : Ieee80211) (p : Pkt) → (classify k p).headroom ≡ p.headroom
unfolding classify
classify-headroom k p = ground arith

-- Whether the packet is a management frame that is taken.
abbrev pub is_taken_mgmt : Ieee80211 → Cfg → Pkt → Bool
is_taken_mgmt k cfg p =
    let fc = u16 p.bytes 0 in
    not ((len p == 0) || not cfg.mac_init_done)
    && (not p.encap && (k.is_mgmt fc || (k.is_ctl fc || k.is_qos_nullfunc fc)))

-- The state that the packet is queued in.
abbrev pub before_queueing : Ieee80211 → Cfg → Pkt → Xmit → Xmit
before_queueing k cfg p x = if is_taken_mgmt k cfg p then announced k cfg p x else x
