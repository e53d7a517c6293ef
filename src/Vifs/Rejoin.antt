-- ===== src/Vifs/Rejoin.antt =====
-- An interface that is added and removed again (rsi/rsi_91x_mac80211.c).
use si91x_rcp_driver.Prelude.{
  ℕ, ◌-◌, ◌≡◌, ◌⊎◌, inl, inr, refl, ap, ◌∙◌, Bool, true, false, Option, none, some, ltb, leb, ◌==◌,
  if◌then◌else◌, arith, Bool-cases,
}
use si91x_rcp_driver.Vifs.{
  Opmode, VapStatus, vap_delete, Vif, Request, Ifs, Outcome, done, failed, oops, intf_mode,
  is_access_point, hosts, place_vif, assign, request, rsi_set_vap_capabilities, start_access_point,
  fresh_pn, add_mode, add_known, rsi_mac80211_add_interface, removed_mode, take_away, is_vif,
  remove_loop, rsi_mac80211_remove_interface,
}

-- The interface is the only one.
abbrev pub Registered : Vif → Ifs → Type 0
Registered v s = (s.vifs 0 ≡ some v) × (s.sc_nvifs ≡ 1)

-- The interfaces are as before.
abbrev pub SameVifs : Ifs → Ifs → Type 0
SameVifs s s' = (s'.vifs ≡ s.vifs) × (s'.sc_nvifs ≡ s.sc_nvifs)

module _ (room : ℕ → Bool) where
  request-SameVifs : (r : Request) (s : Ifs) → SameVifs s (request room r s).1
  unfolding request
  request-SameVifs r s = elim (Bool-cases (room s.mac.allocs)) [
    | inl t ↦ rw t (refl, refl)
    | inr t ↦ rw t (refl, refl)
  ]

  pub caps-SameVifs :
      (mode : Opmode) (v : Vif) (st : VapStatus) (s : Ifs)
      → SameVifs s (rsi_set_vap_capabilities room mode v st s).1
  unfolding rsi_set_vap_capabilities
  caps-SameVifs mode v st s =
      let r = request-SameVifs (Request.vap_caps mode v.addr (s.vif_id v.id) st) s in
      elim (Bool-cases (request room (Request.vap_caps mode v.addr (s.vif_id v.id) st) s).0) [
        | inl t ↦ rw t r
        | inr t ↦ rw t r
      ]

  start-SameVifs : (s : Ifs) → SameVifs s (start_access_point room s)
  unfolding start_access_point
  start-SameVifs s = request-SameVifs _ (record s { bc_mc_seqno = 1 })

  assign-SameVifs : (mode : Opmode) (v : Vif) (s : Ifs) → SameVifs s (assign mode v s).0
  unfolding assign
  assign-SameVifs mode v s = elim (Bool-cases s.p2p_enabled) [
    | inr t ↦ rw t (refl, refl)
    | inl t ↦
        rw t
          (elim (Bool-cases (hosts mode)) [ inl h ↦ rw h (refl, refl) | inr h ↦ rw h (refl, refl) ])
  ]

  first-Registered : (v : Vif) (s : Ifs) → s.sc_nvifs ≡ 0 → Registered v (place_vif v s)
  unfolding place_vif
  first-Registered v s e =
      let room_left : leb 3 s.sc_nvifs ≡ false = ground arith in rw room_left (rw e (refl, refl))

-- What stays in the slot of a removed interface.
abbrev pub kept : Option Opmode → Vif → Option Vif
kept none v = some v
kept (some mode) v = none

-- See the theorem.
unfoldable pub Rejoins : (ℕ → Bool) → Vif → Ifs → Outcome → Type 0
Rejoins room v s (done s') =
    Registered v s'
    × ((rsi_mac80211_remove_interface room v s').sc_nvifs ≡ 0)
    × ((rsi_mac80211_remove_interface room v s').vifs 0 ≡ kept (removed_mode v.ty) v)
Rejoins room v s (failed s') = ((intf_mode v.ty ≡ none) × (s' ≡ s)) ⊎ Registered v s'
Rejoins room v s oops = ⊥

-- An outcome that leaves the interface registered.
unfoldable pub Leaves : Vif → Outcome → Type 0
Leaves v (done s') = Registered v s'
Leaves v (failed s') = Registered v s'
Leaves v oops = ⊥

module _ (room : ℕ → Bool) (v : Vif) where
  Registered-same : (s s' : Ifs) → SameVifs s s' → Registered v s → Registered v s'
  Registered-same s s' e r = (ap (λ f. f 0) e.0 ∙ r.0, e.1 ∙ r.1)

  finish-Registered :
      (s : Ifs) (t : Bool)
      → Registered v s
      → Registered v (if t then start_access_point room (fresh_pn v s) else fresh_pn v s)
  unfolding fresh_pn
  finish-Registered s true r =
      Registered-same s (start_access_point room (fresh_pn v s))
        (start-SameVifs room (fresh_pn v s)) r
  finish-Registered s false r = r

  add_mode-Leaves :
      (mode : Opmode) (p2p : Bool) (s : Ifs)
      → s.sc_nvifs ≡ 0
      → Leaves v (add_mode room mode p2p v s)
  unfolding add_mode Leaves
  add_mode-Leaves mode p2p s e =
      let s₀ : Ifs = if p2p then record s { p2p_enabled = true } else s in
      let zero_before : s₀.sc_nvifs ≡ 0 = elim (Bool-cases p2p) [
        | inl t ↦ rw t e
        | inr t ↦ rw t e
      ] in
      let s₁ : Ifs = place_vif v s₀ in
      let s₂ : Ifs = (assign mode v s₁).0 in
      let there =
        Registered-same s₁ s₂ (assign-SameVifs room mode v s₁)
          (first-Registered room v s₀ zero_before) in
      let s₃ : Ifs = (rsi_set_vap_capabilities room mode v (assign mode v s₁).1 s₂).1 in
      let sent = Registered-same s₂ s₃ (caps-SameVifs room mode v (assign mode v s₁).1 s₂) there in
      elim (Bool-cases s₂.sniffer) [
        | inl t ↦ rw t there
        | inr t ↦
            rw t
              (elim (Bool-cases (rsi_set_vap_capabilities room mode v (assign mode v s₁).1 s₂).0) [
                | inl u ↦ rw u (finish-Registered s₃ (is_access_point v.ty) sent)
                | inr u ↦ rw u sent
              ])
      ]

  take_away_lem :
      (mode : Option Opmode) (s : Ifs)
      → s.vifs 0 ≡ some v
      → ((take_away room mode v 0 s).sc_nvifs ≡ s.sc_nvifs - 1)
        × ((take_away room mode v 0 s).vifs 0 ≡ kept mode v)
  unfolding take_away
  take_away_lem none s e = (refl, e)
  take_away_lem (some mode) s e =
      ((caps-SameVifs room mode v vap_delete (record s { sc_nvifs = s.sc_nvifs - 1 })).1, refl)

  remove_lem :
      (s : Ifs)
      → Registered v s
      → ((rsi_mac80211_remove_interface room v s).sc_nvifs ≡ 0)
        × ((rsi_mac80211_remove_interface room v s).vifs 0 ≡ kept (removed_mode v.ty) v)
  unfolding rsi_mac80211_remove_interface remove_loop
  remove_lem s (here, one) =
      let some_there : (s.sc_nvifs == 0) ≡ false = ground arith in
      let mine : is_vif v (s.vifs 0) ≡ true = unfold is_vif in (rw here (ground arith)) in
      let gone = take_away_lem (removed_mode v.ty) s here in
      rw some_there (rw mine (omega (arith, gone.0, one), gone.1))

  Leaves-Rejoins : (s : Ifs) (o : Outcome) → Leaves v o → Rejoins room v s o
  unfolding Leaves Rejoins
  Leaves-Rejoins s (done s') r = (r, (remove_lem s' r).0, (remove_lem s' r).1)
  Leaves-Rejoins s (failed s') r = inr r
  Leaves-Rejoins s oops r = r

  known-Rejoins :
      (o : Option (Opmode × Bool)) (s : Ifs)
      → intf_mode v.ty ≡ o
      → s.sc_nvifs ≡ 0
      → Rejoins room v s (add_known room o v s)
  unfolding add_known
  known-Rejoins none s e z = unfold Rejoins in inl (e, refl)
  known-Rejoins (some (mode, p2p)) s e z =
      Leaves-Rejoins s (add_mode room mode p2p v s) (add_mode-Leaves mode p2p s z)

-- An interface that is added where there is none, whatever buffers there are: if that succeeds, it
-- has the first slot and the count is 1, and after its removal the count is 0 and the slot is empty,
-- but for a type that the removal does not know (a monitor or a P2P device), which stays in it. If
-- it fails, then either the driver does not know the type, and nothing has changed, or the interface
-- has been left in the first slot with a count of 1. No null pointer is read.
pub rsi_mac80211_add_interface-Rejoins :
    (room : ℕ → Bool) (v : Vif) (s : Ifs)
    → s.sc_nvifs ≡ 0
    → Rejoins room v s (rsi_mac80211_add_interface room v s)
unfolding rsi_mac80211_add_interface
rsi_mac80211_add_interface-Rejoins room v s z =
    let alone : ltb 0 s.sc_nvifs ≡ false = ground arith in
    rw alone (known-Rejoins room v (intf_mode v.ty) s refl z)
