-- ===== src/Stations/Keeps.antt =====
-- The frames about stations (rsi/rsi_91x_mgmt.c) leave the station table as it is.
use si91x_rcp_driver.Prelude.{
  ℕ, ◌+◌, ◌≡◌, inl, inr, refl, ◌∙◌, Bool, true, false, not, ◌&&◌, Option, none, some, leb, ◌==◌,
  if◌then◌else◌, Bool-cases,
}
use si91x_rcp_driver.Stations.State.{Peer, Key, Frame, Mac}
use si91x_rcp_driver.Stations.Notify.{
  is_wep, no_rate, rsi_send_internal_mgmt_frame, build, rsi_send_sta_notify_frame, unblock_data,
  rsi_load_key, inform_connected, inform_disconnected,
}
use si91x_rcp_driver.Stations.Table.{load_wep}

-- The table and its counts are as before.
abbrev pub SameTable : Mac → Mac → Type 0
SameTable m m' =
    (m'.stations ≡ m.stations)
    × (m'.num_stations ≡ m.num_stations)
    × (m'.max_stations ≡ m.max_stations)

pub same_trans : (a b c : Mac) → SameTable a b → SameTable b c → SameTable a c
same_trans a b c p q = (q.0 ∙ p.0, q.1 ∙ p.1, q.2 ∙ p.2)

send-SameTable : (f : Frame) (m : Mac) → SameTable m (rsi_send_internal_mgmt_frame f m)
unfolding rsi_send_internal_mgmt_frame
send-SameTable (Frame.peer_notify c a d i q) m = (refl, refl, refl)
send-SameTable (Frame.auto_rate i) m = (refl, refl, refl)
send-SameTable Frame.unblock m = (refl, refl, refl)
send-SameTable (Frame.set_key d i) m = (refl, refl, refl)

module _ (room : ℕ → Bool) where
  build-SameTable :
      (prepare : Mac → Mac) (f : Frame) (m : Mac)
      → ((m' : Mac) → SameTable m' (prepare m'))
      → SameTable m (build room prepare f m).1
  unfolding build
  build-SameTable prepare f m keeps = elim (Bool-cases (room m.allocs)) [
    | inl t ↦ rw t (
        let m' : Mac = record m { allocs = m.allocs + 1 } in
        let k = keeps m' in
        let s = send-SameTable f (prepare m') in (s.0 ∙ k.0, s.1 ∙ k.1, s.2 ∙ k.2))
    | inr t ↦ rw t (refl, refl, refl)
  ]

  notify-SameTable :
      (c : Bool) (p : Peer) (i : ℕ) (m : Mac) → SameTable m (rsi_send_sta_notify_frame room c p i m)
  unfolding rsi_send_sta_notify_frame
  notify-SameTable c p i m = build-SameTable _ _ m (λ m'. (refl, refl, refl))

  unblock-SameTable : (m : Mac) → SameTable m (unblock_data room m)
  unfolding unblock_data
  unblock-SameTable m =
      let k = build-SameTable (λ m'. m') Frame.unblock m (λ m'. (refl, refl, refl)) in
      elim (Bool-cases (build room (λ m'. m') Frame.unblock m).0) [
        | inl t ↦ rw t k
        | inr t ↦ rw t k
      ]

  auto_rate-SameTable :
      (i : ℕ) (t : Bool) (m : Mac)
      → SameTable m (if t then (build room (λ m'. m') (Frame.auto_rate i) m).1 else m)
  auto_rate-SameTable i true m = build-SameTable _ _ m (λ m'. (refl, refl, refl))
  auto_rate-SameTable i false m = (refl, refl, refl)

  unblock_if-SameTable : (t : Bool) (m : Mac) → SameTable m (if t then unblock_data room m else m)
  unblock_if-SameTable true m = unblock-SameTable m
  unblock_if-SameTable false m = (refl, refl, refl)

  pub connected-SameTable : (p : Peer) (i : ℕ) (m : Mac) → SameTable m (inform_connected room p i m)
  unfolding inform_connected
  connected-SameTable p i m =
      let m₁ : Mac = rsi_send_sta_notify_frame room true p i m in
      let m₂ : Mac =
        if m₁.min_rate == no_rate then (build room (λ m'. m') (Frame.auto_rate i) m₁).1 else m₁ in
      let m₃ : Mac = if m₂.hw_data_qs_blocked then unblock_data room m₂ else m₂ in
      same_trans m m₁ m₃ (notify-SameTable true p i m) (
        same_trans m₁ m₂ m₃ (auto_rate-SameTable i (m₁.min_rate == no_rate) m₁)
          (unblock_if-SameTable m₂.hw_data_qs_blocked m₂))

  pub disconnected-SameTable :
      (p : Peer) (i : ℕ) (m : Mac) → SameTable m (inform_disconnected room p i m)
  unfolding inform_disconnected
  disconnected-SameTable p i m = notify-SameTable false p i (record m { traffic_timer = false })

  load_key-SameTable : (k : Key) (i : ℕ) (m : Mac) → SameTable m (rsi_load_key room k i m)
  unfolding rsi_load_key
  load_key-SameTable k i m = elim (Bool-cases (room m.allocs && not (leb m.max_stations i))) [
    | inl t ↦ rw t (send-SameTable _ (record m { allocs = m.allocs + 1 }))
    | inr t ↦ rw t (refl, refl, refl)
  ]

  pub load_wep-SameTable : (k : Option Key) (i : ℕ) (m : Mac) → SameTable m (load_wep room k i m)
  unfolding load_wep
  load_wep-SameTable none i m = (refl, refl, refl)
  load_wep-SameTable (some k) i m = elim (Bool-cases (is_wep k.cipher)) [
    | inl t ↦ rw t (load_key-SameTable k i m)
    | inr t ↦ rw t (refl, refl, refl)
  ]
