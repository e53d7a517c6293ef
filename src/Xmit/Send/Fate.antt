-- ===== src/Xmit/Send/Fate.antt =====
-- What becomes of a packet in `rsi_send_data_pkt`, `rsi_send_mgmt_pkt`, `rsi_send_bt_pkt` and
-- `rsi_send_zb_pkt` (rsi/rsi_91x_hal.c).
use si91x_rcp_driver.Prelude.{
  ℕ, ◌+◌, ◌%◌, ◌^◌, ◌≡◌, ◌⊎◌, inl, inr, refl, ◌∙◌, ap, Bool, true, false, ◌&&◌, some, List, [], ◌∷◌,
  ◌++◌, if◌then◌else◌, arith, Bool-cases, Option-cases, update,
}
use si91x_rcp_driver.Rx.{u16}
use si91x_rcp_driver.Xmit.{
  Vif, Station, Ieee80211, Cfg, get_vif, find_sta, slice, is_ap, is_station, peer,
}
use si91x_rcp_driver.Xmit.Send.{
  Act, set_intention, clear_intention, write, free, indicate, Air, Out, Sender, act, send_pkt,
  indicate_status, may_send, send_data_pkt, send_zb_pkt, send_bt_pkt, wake_now, MgmtSent, sent,
  crashed, probe_req, send_probed, send_mgmt_bytes, send_null, send_from, send_mgmt_pkt, bt_desc,
}

-- How often a packet has been freed or handed back.
pub given : List Act → ℕ
given [] = 0
given (set_intention ∷ acts) = given acts
given (clear_intention ∷ acts) = given acts
given (write bytes ∷ acts) = given acts
given (free ∷ acts) = given acts + 1
given (indicate ack ∷ acts) = given acts + 1

abbrev pub Given : ℕ → Sender → Sender → Type 0
Given n s s' = given s'.acts ≡ given s.acts + n

-- A null frame whose confirmation is asked for.
abbrev pub null_to_confirm : Ieee80211 → Out → Bool
null_to_confirm k o = k.is_qos_nullfunc (u16 o.bytes o.internal_hdr_size) && o.req_status

-- A management packet is given away once, or is a null frame that is kept for a station until its
-- confirmation comes; only such a frame can come to a null pointer.
unfoldable pub MgmtGiven : Ieee80211 → Out → Sender → MgmtSent → Type 0
MgmtGiven k o s (sent ok s') =
    Given 1 s s' ⊎ ((null_to_confirm k o ≡ true) × Given 0 s s' × (i : ℕ) × (s'.awaited ≡ some i))
MgmtGiven k o s crashed = null_to_confirm k o ≡ true

send_pkt-Given : (air : Air) (bytes : List ℕ) (s : Sender) → Given 0 s (send_pkt air bytes s).1
unfolding send_pkt act given
send_pkt-Given air bytes s = ground arith

send_pkt-awaited :
    (air : Air) (bytes : List ℕ) (s : Sender) → (send_pkt air bytes s).1.awaited ≡ s.awaited
unfolding send_pkt act
send_pkt-awaited air bytes s = ground arith

send_probed_lem :
    (k : Ieee80211) (cfg : Cfg) (air : Air) (wh : ℕ) (bytes : List ℕ) (s : Sender)
    → Given 0 s (send_probed k cfg air wh bytes s).1
      × ((send_probed k cfg air wh bytes s).1.awaited ≡ s.awaited)
unfolding send_probed
send_probed_lem k cfg air wh bytes s = elim (Option-cases (probe_req k cfg air wh bytes)) [
  | inl e ↦ (ground (arith, e), ground (arith, e))
  | inr (bytes', e) ↦ (
    ground (arith, e, send_pkt-Given air bytes' s),
    ground (arith, e, send_pkt-awaited air bytes' s),
  )
]

act-free : (s : Sender) → Given 1 s (act free s)
unfolding act given
act-free s = refl

along :
    (k : Ieee80211) (o : Out) (s : Sender) (r r' : MgmtSent)
    → r ≡ r'
    → MgmtGiven k o s r'
    → MgmtGiven k o s r
along k o s r r' e h = rw e h

module _ (cfg : Cfg) (hw : cfg.has_hw ≡ true) (up : cfg.iface_down ≡ false) where
  indicate_status-Given : (ok : Bool) (s : Sender) → Given 1 s (indicate_status cfg ok s)
  unfolding indicate_status act given
  indicate_status-Given ok s = ground (arith, hw, up)

  send_data_pkt-Given : (air : Air) (o : Out) (s : Sender) → Given 1 s (send_data_pkt cfg air o s).1
  unfolding send_data_pkt
  send_data_pkt-Given air o s =
      let r : Bool × Sender = if may_send cfg air o then send_pkt air o.bytes s else (false, s) in
      let count =
        update r.1.total_tx_pkt_freed o.priority
          ((r.1.total_tx_pkt_freed o.priority + 1) % 2 ^ 32) in
      let kept : given r.1.acts ≡ given s.acts = ground (arith, send_pkt-Given air o.bytes s) in
      omega (arith, kept, indicate_status-Given r.0 (record r.1 { total_tx_pkt_freed = count }))

  -- The bus, and the report if nothing is awaited.
  sent_bytes :
      (k : Ieee80211) (air : Air) (o : Out) (wh : ℕ) (waits : Bool) (bytes : List ℕ) (s₀ s : Sender)
      → s.acts ≡ s₀.acts
      → (waits ≡ false) ⊎ ((null_to_confirm k o ≡ true) × (i : ℕ) × (s.awaited ≡ some i))
      → MgmtGiven k o s₀ (send_mgmt_bytes k cfg air wh waits bytes s)
  unfolding send_mgmt_bytes MgmtGiven
  sent_bytes k air o wh waits bytes s₀ s e h =
      let (kept, waiting) = send_probed_lem k cfg air wh bytes s in
      reported waits (send_probed k cfg air wh bytes s) (kept ∙ ap (λ a. given a + 0) e) waiting h
    where
      reported :
          (w : Bool) (r : Bool × Sender)
          → Given 0 s₀ r.1
          → r.1.awaited ≡ s.awaited
          → (w ≡ false) ⊎ ((null_to_confirm k o ≡ true) × (i : ℕ) × (s.awaited ≡ some i))
          → Given 1 s₀ (if w then r.1 else indicate_status cfg r.0 r.1)
            ⊎ ((null_to_confirm k o ≡ true)
                × Given 0 s₀ (if w then r.1 else indicate_status cfg r.0 r.1)
                × (i : ℕ) × ((if w then r.1 else indicate_status cfg r.0 r.1).awaited ≡ some i))
      reported false r kept waiting h' = inl (omega (arith, kept, indicate_status-Given r.0 r.1))
      reported true r kept waiting (inl z) = absurd (ground (arith, z))
      reported true r kept waiting (inr (n, i, a)) = inr (n, kept, i, waiting ∙ a)

  send_null-Given :
      (k : Ieee80211) (air : Air) (st : ℕ → Station) (o : Out) (wh i offset : ℕ) (s : Sender)
      → null_to_confirm k o ≡ true
      → MgmtGiven k o s (send_null k cfg air st wh i offset o s)
  unfolding send_null
  send_null-Given k air st o wh i offset s null =
      sent_bytes k air o wh true _ s (record s { awaited = some offset }) refl
        (inr (null, offset, refl))

  send_from-Given :
      (k : Ieee80211) (air : Air) (st : ℕ → Station) (vif : Vif) (o : Out) (s : Sender)
      → MgmtGiven k o s (send_from k cfg air st vif o s)
  unfolding send_from MgmtGiven
  send_from-Given k air st vif o s =
      let wh = o.internal_hdr_size in
      let plain = sent_bytes k air o wh false o.bytes s s refl (inl refl) in
      elim (Bool-cases (k.is_qos_nullfunc (u16 o.bytes wh) && o.req_status)) [
        | inr e ↦ rw e plain
        | inl e ↦ elim (Bool-cases (is_ap vif.ty)) [
          | inl a ↦ elim (Option-cases (find_sta k cfg st (slice (wh + 4) 6 o.bytes))) [
            | inl f ↦ rw e (rw a (rw f (ground (arith, e))))
            | inr (i, f) ↦ rw e (rw a (rw f (send_null-Given k air st o wh i (st i).sta_id s e)))
          ]
          | inr a ↦ elim (Bool-cases (is_station vif.ty)) [
            | inl b ↦ rw e (rw a (rw b (send_null-Given k air st o wh peer peer s e)))
            | inr b ↦ rw e (rw a (rw b (inl (indicate_status-Given false s))))
          ]
        ]
      ]

  send_mgmt_pkt-Given :
      (k : Ieee80211) (air : Air) (st : ℕ → Station) (o : Out) (s : Sender)
      → MgmtGiven k o s (send_mgmt_pkt k cfg air st o s)
  unfolding send_mgmt_pkt MgmtGiven
  send_mgmt_pkt-Given k air st o s =
      let a = send_pkt air (wake_now o.bytes) s in
      let b = send_pkt air o.bytes s in
      let r = send_mgmt_pkt k cfg air st o s in
      let by : (r' : MgmtSent) → r ≡ r' → MgmtGiven k o s r' → MgmtGiven k o s r =
        λ r' e h. along k o s r r' e h in
      elim (Bool-cases o.internal) [
        | inl e ↦
            by (sent a.0 (act free a.1)) (ground (arith, e))
              (inl (omega (arith, act-free a.1, send_pkt-Given air (wake_now o.bytes) s)))
        | inr e ↦ elim (Bool-cases o.encap) [
          | inl f ↦
              by (sent b.0 (indicate_status cfg b.0 b.1)) (ground (arith, e, f, up))
                (inl (omega (arith, indicate_status-Given b.0 b.1, send_pkt-Given air o.bytes s)))
          | inr f ↦
              elim (Option-cases (get_vif cfg.vifs (slice (o.internal_hdr_size + 10) 6 o.bytes))) [
                | inl g ↦
                    by (sent false (indicate_status cfg false s)) (ground (arith, e, f, g, up))
                      (inl (indicate_status-Given false s))
                | inr (vif, g) ↦
                    by (send_from k cfg air st vif o s) (ground (arith, e, f, g, up))
                      (send_from-Given k air st vif o s)
              ]
        ]
      ]

  -- With the hardware present and the interface up, whatever the bus and the power save say: a data
  -- packet, a Bluetooth packet and a Zigbee packet are freed or handed back exactly once, sent or
  -- not. So is a management packet, but for a null frame whose confirmation is asked for, which may be
  -- kept for a station instead; only such a frame can make the driver read through a null pointer.
  pub sends-Given :
      (k : Ieee80211) (bt_build : Bool) (air : Air) (st : ℕ → Station) (o : Out) (s : Sender)
      → Given 1 s (send_data_pkt cfg air o s).1
        × Given 1 s (send_bt_pkt bt_build air o s).1
        × Given 1 s (send_zb_pkt air o s).1
        × MgmtGiven k o s (send_mgmt_pkt k cfg air st o s)
  unfolding send_bt_pkt send_zb_pkt act given
  sends-Given k bt_build air st o s = (
    send_data_pkt-Given air o s,
    ground
        (arith, send_pkt-Given air o.bytes s, send_pkt-Given air (bt_desc bt_build o ++ o.bytes) s),
    omega (arith, send_pkt-Given air (wake_now o.bytes) s),
    send_mgmt_pkt-Given k air st o s,
  )
