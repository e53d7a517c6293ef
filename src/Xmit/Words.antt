-- ===== src/Xmit/Words.antt =====
-- The first and the third word of the descriptor that `rsi_prepare_data_desc` (rsi/rsi_91x_hal.c)
-- makes.
use si91x_rcp_driver.Prelude.{
  ℕ, ◌+◌, ◌-◌, ◌*◌, ◌%◌, ◌^◌, ◌<◌, ◌≡◌, inl, inr, refl, ◌∙◌, ap, Bool, not, ◌&&◌, List, [], ◌∷◌,
  length, drop, if◌then◌else◌, arith, Bool-cases, shl, bit_or-shl,
}
use si91x_rcp_driver.Rx.{rsi_wifi_mgmt_q, rsi_wifi_data_q}
use si91x_rcp_driver.Xmit.{
  Vif, Pkt, len, Ieee80211, Cfg, Xmit, Desc, Prepared, ready, failed, panic, is_station, or,
  Station, AxParams,
}
use si91x_rcp_driver.Xmit.DataDesc.{
  is_eapol, station_of, set_pm_bit, set_pm, data_frame_words, min_rate_words, ax_words,
  fixed_rate_words, eapol_words, eapol_priority, group_words, last_words, queue_words, data_desc_of,
}

-- The queue of the device that the descriptor names.
abbrev pub device_q : Vif → Bool → Pkt → ℕ
device_q vif eapol4_confirm p =
    if is_eapol vif p && (is_station vif.ty && not eapol4_confirm)
    then rsi_wifi_mgmt_q
    else rsi_wifi_data_q

-- The same frame, but for its first two bytes, where the driver may set a bit.
abbrev pub SameFrame : List ℕ → List ℕ → Type 0
SameFrame bytes bytes' = (length bytes' ≡ length bytes) × (drop 2 bytes' ≡ drop 2 bytes)

-- The words that the readers look at.
unfoldable pub Words : ℕ → (q : ℕ) → Pkt → Prepared → Type 0
Words n q p (ready d p') =
    (d.w0 ≡ or (len p - 16) (q * 2 ^ 12) % 2 ^ 16)
    × (d.w2 % 2 ^ 8 ≡ n - 16)
    × (p'.pushed ≡ p.pushed)
    × SameFrame p.bytes p'.bytes
Words n q p (failed p') = Unit
Words n q p panic = Unit

pub or-byte : (a m : ℕ) → a < 2 ^ 8 → or a (m * 2 ^ 8) % 2 ^ 8 ≡ a
or-byte a m lt =
    let shifted : m * 2 ^ 8 ≡ shl 8 m = omega arith in
    rw shifted (rw (bit_or-shl 8 a m lt) (omega (arith, lt)))

pub or-nibble : (a m : ℕ) → a < 2 ^ 12 → or a (m * 2 ^ 12) ≡ a + m * 2 ^ 12
or-nibble a m lt =
    let shifted : m * 2 ^ 12 ≡ shl 12 m = omega arith in rw shifted (bit_or-shl 12 a m lt)

pub data_frame_words-w0 :
    (k : Ieee80211) (cfg : Cfg) (sta : Station) (n : ℕ) (p : Pkt)
    → (data_frame_words k cfg sta n p).w0 ≡ or (len p - 16) (5 * 2 ^ 12) % 2 ^ 16
unfolding data_frame_words
data_frame_words-w0 k cfg sta n p = refl

pub data_frame_words-w2 :
    (k : Ieee80211) (cfg : Cfg) (sta : Station) (n : ℕ) (p : Pkt)
    → n < 2 ^ 8
    → (data_frame_words k cfg sta n p).w2 % 2 ^ 8 ≡ n - 16
unfolding data_frame_words
data_frame_words-w2 k cfg sta n p lt = elim (Bool-cases p.encap) [
  | inl e ↦ rw e (omega (arith, lt))
  | inr e ↦ rw e (or-byte (n - 16) _ (omega (arith, lt)))
]

-- Nothing else touches the two words, but for the first one in an EAPOL frame.
abbrev pub SameWords : Desc → Desc → Type 0
SameWords d d' = (d'.w0 ≡ d.w0) × (d'.w2 ≡ d.w2)

pub min_rate_words-SameWords : (cfg : Cfg) (d : Desc) → SameWords d (min_rate_words cfg d)
unfolding min_rate_words
min_rate_words-SameWords cfg d = (ground arith, ground arith)

pub ax_words-SameWords :
    (cfg : Cfg) (vif : Vif) (ax : AxParams) (d : Desc) → SameWords d (ax_words cfg vif ax d).1
unfolding ax_words
ax_words-SameWords cfg vif ax d = (ground arith, ground arith)

pub fixed_rate_words-SameWords : (cfg : Cfg) (d : Desc) → SameWords d (fixed_rate_words cfg d)
unfolding fixed_rate_words
fixed_rate_words-SameWords cfg d = (ground arith, ground arith)

pub group_words-SameWords :
    (k : Ieee80211) (cfg : Cfg) (vif : Vif) (p : Pkt) (d : Desc)
    → SameWords d (group_words k cfg vif p d)
unfolding group_words
group_words-SameWords k cfg vif p d = (ground arith, ground arith)

pub set_pm_bit-SameFrame : (bytes : List ℕ) → SameFrame bytes (set_pm_bit bytes)
unfolding set_pm_bit
set_pm_bit-SameFrame [] = (refl, refl)
set_pm_bit-SameFrame (b ∷ []) = (refl, refl)
set_pm_bit-SameFrame (b ∷ c ∷ rest) = (refl, refl)

pub set_pm_lem :
    (cfg : Cfg) (vif : Vif) (p : Pkt)
    → ((set_pm cfg vif p).pushed ≡ p.pushed) × SameFrame p.bytes (set_pm cfg vif p).bytes
unfolding set_pm
set_pm_lem cfg vif p = (ground arith, ground (arith, set_pm_bit-SameFrame p.bytes))

pub eapol_priority_lem :
    (vif : Vif) (c : Bool) (p : Pkt)
    → ((eapol_priority vif c p).pushed ≡ p.pushed) × ((eapol_priority vif c p).bytes ≡ p.bytes)
unfolding eapol_priority
eapol_priority_lem vif c p = (ground arith, ground arith)

-- The descriptor after the changes for an EAPOL frame.
pub keyed_words :
    (vif : Vif) (sta : Station) (ax : AxParams) (c : Bool) (n : ℕ) (p : Pkt) (d : Desc)
    → d.w0 ≡ or (len p - 16) (5 * 2 ^ 12) % 2 ^ 16
    → ((if is_eapol vif p then eapol_words vif sta ax c n p d else d).w0
        ≡ or (len p - 16) (device_q vif c p * 2 ^ 12) % 2 ^ 16)
      × ((if is_eapol vif p then eapol_words vif sta ax c n p d else d).w2 ≡ d.w2)
unfolding eapol_words
keyed_words vif sta ax c n p d e = (ground (arith, e), ground arith)

pub data_desc_of-Words :
    (k : Ieee80211) (cfg : Cfg) (n : ℕ) (vif : Vif) (p : Pkt) (x : Xmit)
    → n < 2 ^ 8
    → Words n (device_q vif x.eapol4_confirm p) p (data_desc_of k cfg n vif p x).0
unfolding data_desc_of Words last_words queue_words
data_desc_of-Words k cfg n vif p x lt =
    let sta = x.stations (station_of vif p) in
    let d₀ = data_frame_words k cfg sta n p in
    let d₁ = min_rate_words cfg d₀ in
    let (ax, d₂) = ax_words cfg vif x.ax d₁ in
    let d₃ = fixed_rate_words cfg d₂ in
    let p₁ = eapol_priority vif x.eapol4_confirm p in
    let p₂ = set_pm cfg vif p₁ in
    let keyed = if is_eapol vif p then eapol_words vif sta ax x.eapol4_confirm n p d₃ else d₃ in
    let (a₀, a₂) = min_rate_words-SameWords cfg d₀ in
    let (b₀, b₂) = ax_words-SameWords cfg vif x.ax d₁ in
    let (c₀, c₂) = fixed_rate_words-SameWords cfg d₂ in
    let (e₀, e₂) =
      keyed_words vif sta ax x.eapol4_confirm n p d₃
        (c₀ ∙ b₀ ∙ a₀ ∙ data_frame_words-w0 k cfg sta n p) in
    let (g₀, g₂) = group_words-SameWords k cfg vif p₂ (queue_words p₂ keyed) in
    let (u₁, l₁) = set_pm_lem cfg vif p₁ in
    let (u₂, l₂) = eapol_priority_lem vif x.eapol4_confirm p in
    (
      g₀ ∙ e₀,
      ap (λ w. w % 2 ^ 8) (g₂ ∙ e₂ ∙ c₂ ∙ b₂ ∙ a₂) ∙ data_frame_words-w2 k cfg sta n p lt,
      u₁ ∙ u₂,
      (l₁.0 ∙ ap length l₂, l₁.1 ∙ ap (λ bs. drop 2 bs) l₂),
    )
