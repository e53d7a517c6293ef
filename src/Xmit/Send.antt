-- ===== src/Xmit/Send.antt =====
-- The last step to the bus: `rsi_send_pkt`, `rsi_send_data_pkt`, `rsi_send_mgmt_pkt`,
-- `rsi_send_bt_pkt` and `rsi_send_zb_pkt` of rsi/rsi_91x_hal.c. The packets are not null.
pub mod Fate
use si91x_rcp_driver.Prelude.{
  ℕ, zero, suc, ◌+◌, ◌-◌, ◌*◌, ◌/◌, ◌%◌, ◌^◌, Bool, true, false, not, ◌&&◌, ◌||◌, Option, none,
  some, List, [], ◌∷◌, ◌++◌, length, take, drop, ltb, ◌==◌, if◌then◌else◌, update,
}
use si91x_rcp_driver.Rx.{byte, u16}
use si91x_rcp_driver.Xmit.{
  Vif, Station, Ieee80211, get_vif, find_sta, slice, same_addr, is_ap, is_station, or, le16, zeros,
  peer, Cfg,
}

-- What the driver does to the bus and the packet, in `acts` last one first. `indicate` is
-- ieee80211_tx_status_irqsafe, with the flag IEEE80211_TX_STAT_ACK, and `free` is kfree_skb.
pub data Act : Type 0 where
  set_intention : Act  -- set_clr_tx_intention(common, COMMON_ID, 1)
  clear_intention : Act  -- set_clr_tx_intention(common, COMMON_ID, 0)
  write : List ℕ → Act
  free : Act
  indicate : (ack : Bool) → Act

-- The layers below: whether a protocol has access to the air already, whether asking for it succeeds
-- (see Ps/Access), whether the bus takes the bytes, and the associated access point.
pub record Air : Type 0 where
  pub has_access : Bool
  pub gets_access : Bool
  pub takes : List ℕ → Bool
  pub assoc : Bool
  pub bssid : List ℕ
  pub on_channel : Bool  -- mac80211_cur_channel == rsi_get_connected_channel(adapter)

-- A packet with its control block; `has_vif` is `info->control.vif`.
pub record Out : Type 0 where
  pub bytes : List ℕ
  pub priority : ℕ
  pub encap : Bool
  pub internal : Bool  -- INTERNAL_MGMT_PKT
  pub has_vif : Bool
  pub req_status : Bool  -- IEEE80211_TX_CTL_REQ_TX_STATUS
  pub internal_hdr_size : ℕ
  pub headroom : ℕ
  pub pkt_type : ℕ  -- of the Bluetooth control block

-- `awaited` is the station that waits for the confirmation of a null frame.
pub record Sender : Type 0 where
  pub acts : List Act
  pub total_tx_pkt_freed : ℕ → ℕ
  pub awaited : Option ℕ

unfoldable pub act : Act → Sender → Sender
act a s = record s { acts = a ∷ s.acts }

-- The flag is a status of 0.
unfoldable pub send_pkt : Air → List ℕ → Sender → Bool × Sender
send_pkt air bytes s =
    if air.has_access
    then (air.takes bytes, act (write bytes) s)
    else (if air.gets_access
        then (air.takes bytes, act clear_intention (act (write bytes) (act set_intention s)))
        else (false, act set_intention s))

unfoldable pub indicate_status : Cfg → Bool → Sender → Sender
indicate_status cfg ok s = if not cfg.has_hw || cfg.iface_down then s else act (indicate ok) s

-- The address of the sender in the frame behind the header.
unfoldable pub sender_of : Out → List ℕ
sender_of o = slice (o.internal_hdr_size + (if o.encap then 6 else 10)) 6 o.bytes

-- Whether a data packet may go to the bus.
unfoldable pub may_send : Cfg → Air → Out → Bool
may_send cfg air o =
    if cfg.iface_down || not o.has_vif then false else (elim (get_vif cfg.vifs (sender_of o)) [
      | none ↦ false
      | some vif ↦
          not (is_station vif.ty)
          || (air.assoc
              && (o.encap || same_addr (slice (o.internal_hdr_size + 4) 6 o.bytes) air.bssid))
    ])

unfoldable pub send_data_pkt : Cfg → Air → Out → Sender → Bool × Sender
send_data_pkt cfg air o s =
    let (ok, s₁) = if may_send cfg air o then send_pkt air o.bytes s else (false, s) in
    (
      ok,
      indicate_status cfg ok (record s₁ {
        total_tx_pkt_freed =
            update s₁.total_tx_pkt_freed o.priority
              ((s₁.total_tx_pkt_freed o.priority + 1) % 2 ^ 32);
      }),
    )

-- `skb->data[1] |= BIT(7)`
unfoldable pub wake_now : List ℕ → List ℕ
wake_now [] = []
wake_now (b ∷ []) = b ∷ []
wake_now (b ∷ c ∷ rest) = b ∷ or c (2 ^ 7) ∷ rest

unfoldable pub send_zb_pkt : Air → Out → Sender → Bool × Sender
send_zb_pkt air o s = let (ok, s₁) = send_pkt air (wake_now o.bytes) s in (ok, act free s₁)

abbrev pub ble_country_region_update : ℕ
ble_country_region_update = 0x27

abbrev pub ble_vendor_pkt : ℕ
ble_vendor_pkt = 0xff

-- The descriptor of a Bluetooth packet; the type is tested in the builds with Bluetooth.
unfoldable pub bt_desc : (bt_build : Bool) → Out → List ℕ
bt_desc bt_build o =
    let w7 =
      if bt_build && (o.pkt_type == ble_country_region_update)
      then or (ble_country_region_update * 2 ^ 8) ble_vendor_pkt
      else o.pkt_type in
    le16 (or (length o.bytes) (7 * 2 ^ 12) % 2 ^ 16) ++ (zeros 12 ++ le16 w7)

-- RSI_BT_MGMT_Q is 6.
unfoldable pub send_bt_pkt : (bt_build : Bool) → Air → Out → Sender → Bool × Sender
send_bt_pkt bt_build air o s =
    let (ok, s₁) =
      if byte o.bytes 1 / 2 ^ 4 % 2 ^ 4 == 6
      then send_pkt air o.bytes s
      else (if ltb o.headroom 16
          then (false, s)
          else send_pkt air (bt_desc bt_build o ++ o.bytes) s) in
    (ok, act free s₁)

-- The byte at a position of a descriptor.
unfoldable pub set_byte : ℕ → (ℕ → ℕ) → List ℕ → List ℕ
set_byte i f [] = []
set_byte zero f (b ∷ rest) = f b ∷ rest
set_byte (suc i) f (b ∷ rest) = b ∷ set_byte i f rest

-- A confirmation of the type is asked for: RSI_DESC_REQUIRE_CFM_TO_HOST is BIT(10) of the second word.
unfoldable pub ask_confirm : (confirm_frame_type : ℕ) → List ℕ → List ℕ
ask_confirm type bytes = set_byte 16 (λ b. type) (set_byte 3 (λ b. or b (2 ^ 2)) bytes)

abbrev pub nulldata_confirm : ℕ
nulldata_confirm = 3

abbrev pub proberequest_confirm : ℕ
proberequest_confirm = 2

-- How a management packet ends; `crashed` reads through a null pointer.
pub data MgmtSent : Type 0 where
  sent : Bool → Sender → MgmtSent
  crashed : MgmtSent

-- What becomes of a probe request: to the bus with these bytes, or dropped with a status of 0.
unfoldable pub probe_req : Ieee80211 → Cfg → Air → (wh : ℕ) → List ℕ → Option (List ℕ)
probe_req k cfg air wh bytes =
    if not (k.is_probe_req (u16 bytes wh))
    then some bytes
    else (if not air.assoc
        then some (ask_confirm proberequest_confirm bytes)
        else (if cfg.bgscan_en && (not air.on_channel || (byte bytes (wh + 4) == 0xff))
            then none
            else some bytes))

unfoldable pub send_probed : Ieee80211 → Cfg → Air → (wh : ℕ) → List ℕ → Sender → Bool × Sender
send_probed k cfg air wh bytes s = elim (probe_req k cfg air wh bytes) [
  | none ↦ (true, s)
  | some bytes' ↦ send_pkt air bytes' s
]

-- From the probe requests on. `waits` is wait_for_tx_cnfm.
unfoldable pub send_mgmt_bytes :
    Ieee80211 → Cfg → Air → (wh : ℕ) → (waits : Bool) → List ℕ → Sender → MgmtSent
send_mgmt_bytes k cfg air wh waits bytes s =
    let (ok, s₁) = send_probed k cfg air wh bytes s in
    sent ok (if waits then s₁ else indicate_status cfg ok s₁)

-- A null frame that is to be confirmed goes to the station `i`; `offset` is where its packet is kept.
unfoldable pub send_null :
    Ieee80211 → Cfg → Air → (ℕ → Station) → (wh i offset : ℕ) → Out → Sender → MgmtSent
send_null k cfg air stations wh i offset o s =
    let bytes =
      ask_confirm nulldata_confirm
        (set_byte 15 (λ b. or b ((stations i).sta_id % 2 ^ 8)) o.bytes) in
    send_mgmt_bytes k cfg air wh true bytes (record s { awaited = some offset })

-- A frame of mac80211 from the interface `vif`.
unfoldable pub send_from : Ieee80211 → Cfg → Air → (ℕ → Station) → Vif → Out → Sender → MgmtSent
send_from k cfg air stations vif o s =
    let wh = o.internal_hdr_size in
    if k.is_qos_nullfunc (u16 o.bytes wh) && o.req_status
    then (if is_ap vif.ty
        then elim (find_sta k cfg stations (slice (wh + 4) 6 o.bytes)) [
          | none ↦ crashed
          | some i ↦ send_null k cfg air stations wh i (stations i).sta_id o s
        ]
        else (if is_station vif.ty
            then send_null k cfg air stations wh peer peer o s
            else sent false (indicate_status cfg false s)))
    else send_mgmt_bytes k cfg air wh false o.bytes s

unfoldable pub send_mgmt_pkt : Ieee80211 → Cfg → Air → (ℕ → Station) → Out → Sender → MgmtSent
send_mgmt_pkt k cfg air stations o s =
    if o.internal
    then (let (ok, s₁) = send_pkt air (wake_now o.bytes) s in sent ok (act free s₁))
    else (if cfg.iface_down
        then sent false (indicate_status cfg false s)
        else (if o.encap
            then (let (ok, s₁) = send_pkt air o.bytes s in sent ok (indicate_status cfg ok s₁))
            else (elim (get_vif cfg.vifs (slice (o.internal_hdr_size + 10) 6 o.bytes)) [
              | none ↦ sent false (indicate_status cfg false s)
              | some vif ↦ send_from k cfg air stations vif o s
            ])))
