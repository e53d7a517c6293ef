-- ===== src/Stations/Notify.antt =====
-- The frames about stations: `rsi_send_internal_mgmt_frame`, `rsi_send_sta_notify_frame`,
-- `rsi_send_block_unblock_frame`, `rsi_load_key` and `rsi_inform_bss_status` of
-- rsi/rsi_91x_mgmt.c, for an access point.
use Prim.Native.Nat.{bit_or}
use si91x_rcp_driver.Prelude.{
  ℕ, ◌+◌, ◌*◌, ◌%◌, ◌^◌, Bool, true, false, not, ◌&&◌, ◌||◌, [], ◌∷◌, ◌++◌, leb, ◌==◌,
  if◌then◌else◌,
}
use si91x_rcp_driver.Stations.State.{
  Peer, Key, Frame, peer_notify, auto_rate, unblock, set_key, Mac,
}

-- WLAN_CIPHER_SUITE_WEP40 and WLAN_CIPHER_SUITE_WEP104, WLAN_CIPHER_SUITE_TKIP, KEY_TYPE_CLEAR.
abbrev pub wep40 : ℕ
wep40 = 0x000FAC01

abbrev pub wep104 : ℕ
wep104 = 0x000FAC05

abbrev pub tkip : ℕ
tkip = 0x000FAC02

abbrev pub is_wep : ℕ → Bool
is_wep cipher = cipher == wep104 || cipher == wep40

-- `min_rate` where none is set.
abbrev pub no_rate : ℕ
no_rate = 0xffff

-- A notification about a peer goes to the head of the queue.
unfoldable pub rsi_send_internal_mgmt_frame : Frame → Mac → Mac
rsi_send_internal_mgmt_frame (peer_notify c a d i q) m = record m {
  queue = peer_notify c a d i q ∷ m.queue;
}
rsi_send_internal_mgmt_frame (auto_rate i) m = record m { queue = m.queue ++ auto_rate i ∷ [] }
rsi_send_internal_mgmt_frame unblock m = record m { queue = m.queue ++ unblock ∷ [] }
rsi_send_internal_mgmt_frame (set_key d i) m = record m { queue = m.queue ++ set_key d i ∷ [] }

-- `room n` tells whether the n-th buffer is there.
module _ (room : ℕ → Bool) where
  -- A builder that fails where its buffer does; `prepare` is what it does to the state before it
  -- queues the frame. The flag tells whether it returned 0.
  unfoldable pub build : (prepare : Mac → Mac) → Frame → Mac → Bool × Mac
  build prepare f m =
      let m' = record m { allocs = m.allocs + 1 } in
      if room m.allocs then (true, rsi_send_internal_mgmt_frame f (prepare m')) else (false, m')

  unfoldable pub rsi_send_sta_notify_frame : (connected : Bool) → Peer → (sta_id : ℕ) → Mac → Mac
  rsi_send_sta_notify_frame connected p sta_id m =
      (build (λ m'. record m' { peer_notify_state = connected; sta_bssid = p.addr })
        (peer_notify connected p.addr (p.aid % 2 ^ 12) sta_id p.wme) m).1

  -- The part for `block_event == false`, and what the caller does on success.
  unfoldable pub unblock_data : Mac → Mac
  unblock_data m =
      let sent = build (λ m'. m') unblock m in
      if sent.0 then record sent.1 { hw_data_qs_blocked = false } else sent.1

  -- The key descriptor of a pairwise key, as `key_id` and `cipher` make it.
  unfoldable pub key_descriptor : (cipher key_id key_len : ℕ) → ℕ
  key_descriptor cipher key_id key_len =
      let kind =
        if is_wep cipher
        then bit_or (2 ^ 2) (if leb 13 key_len then 2 ^ 3 else 0)
        else if cipher == 0
        then 0
        else bit_or (2 ^ 4) (if cipher == tkip then 2 ^ 5 else 0) in
      bit_or (bit_or kind (2 ^ 13)) ((if is_wep cipher then key_id else 0) * 2 ^ 14)

  -- For a pairwise key of a station; the buffer is taken before the index is looked at, and is lost
  -- where that is too large.
  unfoldable pub rsi_load_key : Key → (sta_id : ℕ) → Mac → Mac
  rsi_load_key k sta_id m =
      let m' = record m { allocs = m.allocs + 1 } in
      if room m.allocs && not (leb m.max_stations sta_id)
      then rsi_send_internal_mgmt_frame
          (set_key (key_descriptor k.cipher k.keyidx k.keylen % 2 ^ 16) sta_id) m'
      else m'

  -- `opmode` is AP_OPMODE. A peer that connects:
  unfoldable pub inform_connected : Peer → (sta_id : ℕ) → Mac → Mac
  inform_connected p sta_id m =
      let m₁ = rsi_send_sta_notify_frame true p sta_id m in
      let m₂ = if m₁.min_rate == no_rate then (build (λ m'. m') (auto_rate sta_id) m₁).1 else m₁ in
      if m₂.hw_data_qs_blocked then unblock_data m₂ else m₂

  -- A peer that disconnects. A timer that has no function is not pending.
  unfoldable pub inform_disconnected : Peer → (sta_id : ℕ) → Mac → Mac
  inform_disconnected p sta_id m =
      rsi_send_sta_notify_frame false p sta_id (record m { traffic_timer = false })
