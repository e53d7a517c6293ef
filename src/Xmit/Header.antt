-- ===== src/Xmit/Header.antt =====
-- What stands before a data packet when `rsi_prepare_data_desc` (rsi/rsi_91x_hal.c) is done, seen by
-- the readers of a descriptor in rsi/rsi_mgmt.h, which reception uses.
use si91x_rcp_driver.Prelude.{
  ℕ, zero, suc, ◌+◌, ◌-◌, ◌*◌, ◌%◌, ◌^◌, ◌≤◌, ◌<◌, ◌≡◌, ◌⊎◌, inl, inr, refl, sym, ◌∙◌, Bool, some,
  List, ◌++◌, length, length-append, drop, arith,
}
use si91x_rcp_driver.Rx.{byte, u16, get_queueno, get_length}
use si91x_rcp_driver.Rx.Layout.{drop-append}
use si91x_rcp_driver.Xmit.{
  Vif, Pkt, len, skb_push, Ieee80211, Cfg, Xmit, Desc, header, zeros, Prepared, ready, failed,
  panic, get_vif, or,
}
use si91x_rcp_driver.Xmit.DataDesc.{
  is_eapol, data_desc_of, align_of, fill_data_desc, push_data_desc,
}
use si91x_rcp_driver.Xmit.Core.{skb_of}
use si91x_rcp_driver.Xmit.Bounds.{behind_header, aligned}
use si91x_rcp_driver.Xmit.Once.{source}
use si91x_rcp_driver.Xmit.Words.{device_q, SameFrame, Words, or-nibble, data_desc_of-Words}

length-zeros : (n : ℕ) → length (zeros n) ≡ n
unfolding zeros
length-zeros zero = refl
length-zeros (suc n) = omega (arith, length-zeros n)

length-header : (d : Desc) (n : ℕ) → length (header d n) ≡ 20 + n
unfolding header
length-header d n = omega (arith, length-zeros n)

u16-header : (d : Desc) (n : ℕ) (rest : List ℕ) → u16 (header d n ++ rest) 0 ≡ d.w0 % 2 ^ 16
unfolding header
u16-header d n rest = omega arith

byte-header : (d : Desc) (n : ℕ) (rest : List ℕ) → byte (header d n ++ rest) 4 ≡ d.w2 % 2 ^ 8
unfolding header
byte-header d n rest = refl

-- What the device reads: the queue, the length behind the descriptor, and, behind the extended
-- descriptor whose length stands in the third word, the frame.
unfoldable pub Reads : Vif → (eapol4_confirm : Bool) → Pkt → Prepared → Type 0
Reads vif c p (ready d p') =
    (get_queueno (skb_of d p').bytes 0 ≡ device_q vif c p)
    × (get_length (skb_of d p').bytes 0 ≡ length (skb_of d p').bytes - 16)
    × (drop (16 + byte (skb_of d p').bytes 4) (skb_of d p').bytes ≡ p'.bytes)
    × SameFrame p.bytes p'.bytes
Reads vif c p (failed p') = Unit
Reads vif c p panic = Unit

module _ (n : ℕ) (d : Desc) (p' : Pkt) (pushed : p'.pushed ≡ n) (low : 20 ≤ n) where
  word_there : u16 (skb_of d p').bytes 0 ≡ d.w0 % 2 ^ 16
  unfolding skb_of
  word_there = u16-header d (p'.pushed - 20) p'.bytes

  size_there : length (skb_of d p').bytes ≡ n + length p'.bytes
  unfolding skb_of
  size_there = omega (
    arith,
    length-append (header d (p'.pushed - 20)) p'.bytes,
    length-header d (p'.pushed - 20),
    pushed,
    low,
  )

  frame_there :
      d.w2 % 2 ^ 8 ≡ n - 16 → drop (16 + byte (skb_of d p').bytes 4) (skb_of d p').bytes ≡ p'.bytes
  unfolding skb_of
  frame_there e =
      let here : 16 + byte (header d (p'.pushed - 20) ++ p'.bytes) 4
          ≡ length (header d (p'.pushed - 20)) + 0 =
        omega (
          arith,
          byte-header d (p'.pushed - 20) p'.bytes,
          e,
          length-header d (p'.pushed - 20),
          pushed,
          low,
        ) in
      rw here (drop-append (header d (p'.pushed - 20)) p'.bytes 0)

Reads-of-Words :
    (n : ℕ) (vif : Vif) (c : Bool) (p₀ p : Pkt) (r : Prepared)
    → Words n (device_q vif c p₀) p r
    → p.pushed ≡ n
    → 20 ≤ n
    → n + length p.bytes < 2 ^ 12 + 16
    → p.bytes ≡ p₀.bytes
    → Reads vif c p₀ r
unfolding Words Reads get_queueno get_length
Reads-of-Words n vif c p₀ p (ready d p') (w, w₂, u, l) e low fits l₀ =
    let q = device_q vif c p₀ in
    let small : q < 8 = ground arith in
    let sum : or (len p - 16) (q * 2 ^ 12) ≡ (len p - 16) + q * 2 ^ 12 =
      or-nibble (len p - 16) q (omega (arith, e, fits)) in
    let word = word_there n d p' (u ∙ e) low in
    (
      omega (arith, word, w, sum, small, e, fits),
      omega (arith, word, w, sum, small, e, fits, low, size_there n d p' (u ∙ e) low, l.0),
      frame_there n d p' (u ∙ e) low w₂,
      rw (sym l₀) l,
    )
Reads-of-Words n vif c p₀ p (failed p') h e low fits l₀ = tt
Reads-of-Words n vif c p₀ p panic h e low fits l₀ = tt

fill_data_desc-Reads :
    (k : Ieee80211) (cfg : Cfg) (n : ℕ) (p : Pkt) (x : Xmit) (vif : Vif)
    → get_vif cfg.vifs (source p) ≡ some vif
    → p.pushed ≡ n
    → 20 ≤ n
    → n < 2 ^ 8
    → n + length p.bytes < 2 ^ 12 + 16
    → Reads vif x.eapol4_confirm p (fill_data_desc k cfg n p x).0
unfolding fill_data_desc is_eapol
fill_data_desc-Reads k cfg n p x vif e u low lt fits =
    let p₁ : Pkt = record p { internal_hdr_size = n } in
    let r = (data_desc_of k cfg n vif p₁ x).0 in
    let words = data_desc_of-Words k cfg n vif p₁ x lt in
    let reads : Reads vif x.eapol4_confirm p r =
      Reads-of-Words n vif x.eapol4_confirm p p₁ r words u low fits refl in
    ground (arith, e, reads)

align_of_bound : (cfg : Cfg) (p : Pkt) → p.misaligned < 64 → align_of cfg p ≤ 64
unfolding align_of
align_of_bound cfg p lt = ground (arith, lt)

push_data_desc_cases :
    (k : Ieee80211) (cfg : Cfg) (p : Pkt) (x : Xmit)
    → (push_data_desc k cfg p x ≡ (failed p, x))
      ⊎ (push_data_desc k cfg p x ≡ (failed (behind_header p), x))
      ⊎ (push_data_desc k cfg p x ≡ (panic, x))
      ⊎ (push_data_desc k cfg p x
          ≡ fill_data_desc k cfg
              (20 + align_of cfg (behind_header p))
              (aligned cfg (behind_header p))
              x)
unfolding push_data_desc skb_push
push_data_desc_cases k cfg p x = ground arith

Reads-same :
    (vif : Vif) (c : Bool) (p p' : Pkt) (r : Prepared)
    → device_q vif c p ≡ device_q vif c p'
    → p.bytes ≡ p'.bytes
    → Reads vif c p r
    → Reads vif c p' r
unfolding Reads
Reads-same vif c p p' (ready d q) e l (a, b, f, m) = (a ∙ e, b, f, rw (sym l) m)
Reads-same vif c p p' (failed q) e l h = tt
Reads-same vif c p p' panic e l h = tt

-- Whenever `rsi_prepare_data_desc` makes a descriptor, for a packet of fewer than 4028 bytes from one
-- of the interfaces, the device reads it back with the readers of the receive path: the queue is
-- RSI_WIFI_MGMT_Q for an EAPOL frame of a station that has not finished its handshake and
-- RSI_WIFI_DATA_Q otherwise, the length is what stands behind the 16 bytes of the descriptor, and
-- behind the extended descriptor and the alignment, as long as the third word says, stands the
-- frame, the same from its third byte on.
pub push_data_desc-Reads :
    (k : Ieee80211) (cfg : Cfg) (p : Pkt) (x : Xmit) (vif : Vif)
    → get_vif cfg.vifs (source p) ≡ some vif
    → p.pushed ≡ 0
    → length p.bytes + 68 < 2 ^ 12
    → Reads vif x.eapol4_confirm p (push_data_desc k cfg p x).0
unfolding is_eapol Reads
push_data_desc-Reads k cfg p x vif e u fits =
    let p₁ = behind_header p in
    let bound = align_of_bound cfg p₁ (omega arith) in
    let p₂ = aligned cfg p₁ in
    let n = 20 + align_of cfg p₁ in
    let reads =
      fill_data_desc-Reads k cfg n p₂ x vif e (omega (arith, u)) (omega arith)
        (omega (arith, bound)) (omega (arith, bound, fits)) in
    elim (push_data_desc_cases k cfg p x) [
      | inl c ↦ rw c tt
      | inr r ↦ elim r [
        | inl c ↦ rw c tt
        | inr r' ↦ elim r' [
          | inl c ↦ rw c tt
          | inr c ↦
              rw c (
                Reads-same vif x.eapol4_confirm p₂ p (fill_data_desc k cfg n p₂ x).0 refl refl
                  reads)
        ]
      ]
    ]
