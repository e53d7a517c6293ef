-- ===== src/Xmit/Bounds.antt =====
-- The room that `rsi_prepare_mgmt_desc` and `rsi_prepare_data_desc` (rsi/rsi_91x_hal.c) take before
-- a packet.
use si91x_rcp_driver.Prelude.{
  ℕ, ◌+◌, ◌-◌, ◌*◌, ◌%◌, ◌≤◌, ◌<◌, ◌≡◌, Bool, true, false, ◌&&◌, length, ltb, leb, arith, inl, inr,
  refl, Bool-cases,
}
use si91x_rcp_driver.Xmit.{
  Station, Pkt, skb_push, Ieee80211, Cfg, Xmit, Prepared, ready, failed, panic,
}
use si91x_rcp_driver.Xmit.MgmtDesc.{prepare_mgmt_desc, mgmt_desc_of}
use si91x_rcp_driver.Xmit.DataDesc.{push_data_desc, data_desc_of, fill_data_desc, align_of}

-- A management packet that is ready starts at a multiple of 64 within its headroom, has its bytes
-- and its queue, and at most 512 bytes with its header; there is no panic.
unfoldable pub Fits : Pkt → Prepared → Type 0
Fits p (ready d p') =
    (p'.misaligned ≡ 0)
    × (p'.pushed ≤ p.pushed + 83)
    × (p'.pushed + p'.headroom ≡ p.pushed + p.headroom)
    × (p'.pushed + length p'.bytes ≤ 512)
    × (p'.bytes ≡ p.bytes)
    × (p'.priority ≡ p.priority)
Fits p (failed p') = (p'.bytes ≡ p.bytes) × (p'.pushed + p'.headroom ≡ p.pushed + p.headroom)
Fits p panic = ⊥

module _ (k : Ieee80211) (cfg : Cfg) (stations : ℕ → Station) (scan_in_prog : Bool) where
  mgmt_desc_of-Fits :
      (n : ℕ) (p p' : Pkt)
      → p'.misaligned ≡ 0
      → p'.pushed ≤ p.pushed + 83
      → p'.pushed + p'.headroom ≡ p.pushed + p.headroom
      → p'.bytes ≡ p.bytes
      → p'.priority ≡ p.priority
      → Fits p (mgmt_desc_of k cfg stations scan_in_prog n p')
  unfolding mgmt_desc_of Fits
  mgmt_desc_of-Fits n p p' m u h b q = ground (arith, m, u, h, b, q)

  -- For a packet that starts in a line of 64 bytes, `rsi_prepare_mgmt_desc` never panics, and keeps its
  -- frame on every path; when it is ready it starts at a multiple of 64, at most 83 bytes before the
  -- frame and within its headroom, is at most 512 bytes long, and keeps its queue.
  pub prepare_mgmt_desc-Fits :
      (p : Pkt) → p.misaligned < 64 → Fits p (prepare_mgmt_desc k cfg stations scan_in_prog p)
  unfolding prepare_mgmt_desc skb_push Fits
  prepare_mgmt_desc-Fits p lt = elim (Bool-cases (ltb p.headroom 20)) [
    | inl e ↦ ground (arith, e)
    | inr e ↦
        let align = (p.misaligned + 64 * 20 - 20) % 64 in
        elim (Bool-cases (ltb (p.headroom - 20) align)) [
          | inl f ↦ ground (arith, e, f)
          | inr f ↦
              let p₂ : Pkt = record p {
                headroom = p.headroom - 20 - align;
                misaligned = (align + 64 * align - align) % 64;
                pushed = p.pushed + 20 + align;
              } in
              let fits =
                mgmt_desc_of-Fits (20 + align) p p₂ (omega arith) (omega arith)
                  (ground (arith, e, f)) refl refl in
              ground (arith, e, f, fits)
        ]
  ]

pub is_panic : Prepared → Bool
is_panic (ready d p) = false
is_panic (failed p) = false
is_panic panic = true

-- The packet behind its header of 20 bytes.
abbrev pub behind_header : Pkt → Pkt
behind_header p = record p {
  headroom = p.headroom - 20;
  misaligned = (p.misaligned + 64 * 20 - 20) % 64;
  pushed = p.pushed + 20;
}

fill_data_desc-fine :
    (k : Ieee80211) (cfg : Cfg) (n : ℕ) (p : Pkt) (x : Xmit)
    → is_panic (fill_data_desc k cfg n p x).0 ≡ false
unfolding fill_data_desc data_desc_of is_panic
fill_data_desc-fine k cfg n p x = ground arith

-- The packet behind its alignment.
abbrev pub aligned : Cfg → Pkt → Pkt
aligned cfg p = record p {
  headroom = p.headroom - align_of cfg p;
  misaligned = (p.misaligned + 64 * align_of cfg p - align_of cfg p) % 64;
  pushed = p.pushed + align_of cfg p;
}

-- `rsi_prepare_data_desc` panics exactly when the headroom is at least 40 bytes and less than the 20
-- of the header and the bytes of the alignment: its second test compares with the header again, and
-- not with the alignment.
pub push_data_desc-panics :
    (k : Ieee80211) (cfg : Cfg) (p : Pkt) (x : Xmit)
    → is_panic (push_data_desc k cfg p x).0
      ≡ leb 40 p.headroom && ltb p.headroom (20 + align_of cfg (behind_header p))
unfolding push_data_desc skb_push is_panic
push_data_desc-panics k cfg p x =
    let p₁ = behind_header p in
    ground (arith, fill_data_desc-fine k cfg (20 + align_of cfg p₁) (aligned cfg p₁) x)
