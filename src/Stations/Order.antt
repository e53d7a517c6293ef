-- ===== src/Stations/Order.antt =====
-- The order of the notifications about a station that leaves and joins again
-- (`rsi_send_internal_mgmt_frame` in rsi/rsi_91x_mgmt.c).
use mathlib.Core.List.{append_assoc, append-nil}
use si91x_rcp_driver.Prelude.{
  ℕ, ◌%◌, ◌^◌, ◌<◌, ◌≡◌, inl, inr, refl, sym, ap, ◌∙◌, Bool, true, false, not, ◌&&◌, Option, none,
  some, List, [], ◌∷◌, ◌++◌, leb, ◌==◌, if◌then◌else◌, arith, Bool-cases,
}
use si91x_rcp_driver.Stations.State.{
  Peer, Key, Frame, peer_notify, auto_rate, unblock, set_key, Mac,
}
use si91x_rcp_driver.Stations.Notify.{
  is_wep, no_rate, rsi_send_internal_mgmt_frame, build, rsi_send_sta_notify_frame, unblock_data,
  rsi_load_key, inform_connected, inform_disconnected,
}
use si91x_rcp_driver.Stations.Scan.{Scans, scan-Scans}
use si91x_rcp_driver.Stations.Count.{count-le, count_pos}
use si91x_rcp_driver.Stations.Invariant.{IsTable, drop_at-Replaces, taken_of_has_addr}
use si91x_rcp_driver.Stations.Map.{find, find_in_table}
use si91x_rcp_driver.Stations.Refine.{drop_at-Removes}
use si91x_rcp_driver.Stations.Table.{
  has_addr, Found, exists_at, absent, scan, put, index_or, place, Added, added, rejected, load_wep,
  add_new, add_found, rsi_mac80211_sta_add, drop_at, drop_found, rsi_mac80211_sta_remove,
}

-- Frames came to the end of the queue only.
abbrev pub Extends : List Frame → List Frame → Type 0
Extends q q' = (tail : List Frame) × (q' ≡ q ++ tail)

Extends-refl : (q : List Frame) → Extends q q
Extends-refl q = ([], sym (append-nil q))

Extends-trans : (a b c : List Frame) → Extends a b → Extends b c → Extends a c
Extends-trans a b c (t, e) (u, f) = (t ++ u, f ∙ (ap (λ q. q ++ u) e ∙ append_assoc a t u))

behind : (x : Frame) (q q₁ q' : List Frame) → q ≡ q₁ → Extends (x ∷ q) q' → Extends (x ∷ q₁) q'
behind x q q₁ q' same (t, e) = (t, e ∙ ap (λ z. x ∷ (z ++ t)) same)

-- Every buffer is there.
module _ (room : ℕ → Bool) (all : (n : ℕ) → room n ≡ true) where
  notify-queue :
      (c : Bool) (p : Peer) (i : ℕ) (m : Mac)
      → (rsi_send_sta_notify_frame room c p i m).queue
        ≡ peer_notify c p.addr (p.aid % 2 ^ 12) i p.wme ∷ m.queue
  unfolding rsi_send_sta_notify_frame build rsi_send_internal_mgmt_frame
  notify-queue c p i m = rw (rsi_send_sta_notify_frame, build, all m.allocs) refl

  auto_rate-Extends :
      (i : ℕ) (t : Bool) (m : Mac)
      → Extends m.queue (if t then (build room (λ m'. m') (auto_rate i) m).1 else m).queue
  unfolding build rsi_send_internal_mgmt_frame
  auto_rate-Extends i true m = rw (all m.allocs) (auto_rate i ∷ [], refl)
  auto_rate-Extends i false m = Extends-refl m.queue

  unblock-Extends :
      (t : Bool) (m : Mac) → Extends m.queue (if t then unblock_data room m else m).queue
  unfolding unblock_data build rsi_send_internal_mgmt_frame
  unblock-Extends true m = rw (all m.allocs) (unblock ∷ [], refl)
  unblock-Extends false m = Extends-refl m.queue

  connected-queue :
      (p : Peer) (i : ℕ) (m : Mac)
      → Extends
          (peer_notify true p.addr (p.aid % 2 ^ 12) i p.wme ∷ m.queue)
          (inform_connected room p i m).queue
  unfolding inform_connected
  connected-queue p i m =
      let m₁ : Mac = rsi_send_sta_notify_frame room true p i m in
      let m₂ : Mac =
        if m₁.min_rate == no_rate then (build room (λ m'. m') (auto_rate i) m₁).1 else m₁ in
      let m₃ : Mac = if m₂.hw_data_qs_blocked then unblock_data room m₂ else m₂ in
      let both =
        Extends-trans m₁.queue m₂.queue m₃.queue (auto_rate-Extends i (m₁.min_rate == no_rate) m₁)
          (unblock-Extends m₂.hw_data_qs_blocked m₂) in
      (both.0, both.1 ∙ ap (λ q. q ++ both.0) (notify-queue true p i m))

  load_wep-Extends :
      (k : Option Key) (i : ℕ) (m : Mac) → Extends m.queue (load_wep room k i m).queue
  unfolding load_wep rsi_load_key rsi_send_internal_mgmt_frame
  load_wep-Extends none i m = Extends-refl m.queue
  load_wep-Extends (some k) i m = elim (Bool-cases (is_wep k.cipher)) [
    | inr e ↦ rw e (Extends-refl m.queue)
    | inl e ↦ rw e (elim (Bool-cases (room m.allocs && not (leb m.max_stations i))) [
      | inl f ↦ rw f (set_key _ i ∷ [], refl)
      | inr f ↦ rw f (Extends-refl m.queue)
    ])
  ]

  add_new-queue :
      (p : Peer) (i : ℕ) (m : Mac)
      → Extends
          (peer_notify true p.addr (p.aid % 2 ^ 12) i p.wme ∷ m.queue)
          (add_new room p i m).queue
  unfolding add_new put place
  add_new-queue p i m =
      let m₁ : Mac = inform_connected room p i (place p i m) in
      let m₂ : Mac = load_wep room m₁.key i m₁ in
      Extends-trans (peer_notify true p.addr (p.aid % 2 ^ 12) i p.wme ∷ m.queue) m₁.queue m₂.queue
        (connected-queue p i (place p i m)) (load_wep-Extends m₁.key i m₁)

  drop_at-queue :
      (p : Peer) (i : ℕ) (m : Mac)
      → (drop_at room p i m).queue ≡ peer_notify false p.addr (p.aid % 2 ^ 12) i p.wme ∷ m.queue
  unfolding drop_at put inform_disconnected
  drop_at-queue p i m = notify-queue false p i (record m { traffic_timer = false })

-- The frames of a station that left from slot `i` and joined again, the head of the queue first.
unfoldable pub Swapped : Peer → (i : ℕ) → List Frame → Added → Type 0
Swapped p i q (rejected m') = ⊥
Swapped p i q (added m') =
    (k : ℕ) × Extends
      (peer_notify true p.addr (p.aid % 2 ^ 12) k p.wme
        ∷ peer_notify false p.addr (p.aid % 2 ^ 12) i p.wme
        ∷ q)
      m'.queue

-- The loop finds a station that the table has, at its slot.
scan_finds :
    (m : Mac) (addr i : ℕ) (r : Found)
    → IsTable m
    → i < m.max_stations
    → has_addr addr (m.stations i).sta ≡ true
    → Scans m.stations addr 0 m.max_stations none r
    → r ≡ exists_at i
unfolding Scans
scan_finds m addr i (exists_at k) t lt h (klt, kh) = ap exists_at (t.distinct addr k i klt lt kh h)
scan_finds m addr i (absent free) t lt h (without, is) = cc (without i (omega arith) lt)

-- The loop finds no station where the map has none.
scan_misses :
    (m : Mac) (addr : ℕ) (r : Found)
    → IsTable m
    → find m addr ≡ none
    → Scans m.stations addr 0 m.max_stations none r
    → (free : Option ℕ) × (r ≡ absent free)
unfolding Scans has_addr
scan_misses m addr (exists_at k) t e (klt, kh) =
    let there : (m.stations k).sta ≡ none = sym (find_in_table m t addr k klt kh) ∙ e in
    cc (ap (has_addr addr) there, kh)
scan_misses m addr (absent free) t e q = (free, refl)

module _ (room : ℕ → Bool) (all : (n : ℕ) → room n ≡ true) (p : Peer) where
  sgi-queue :
      (has_sgi : Bool) (q : List Frame) (m : Mac)
      → Extends q m.queue
      → Extends q (if has_sgi then record m { sgi = true } else m).queue
  sgi-queue true q m e = e
  sgi-queue false q m e = e

  -- A station that is not in the table, which has room, joins.
  joins-Swapped :
      (has_sgi : Bool) (i : ℕ) (q : List Frame) (m : Mac)
      → IsTable m
      → find m p.addr ≡ none
      → m.num_stations < m.max_stations
      → m.queue ≡ peer_notify false p.addr (p.aid % 2 ^ 12) i p.wme ∷ q
      → Swapped p i q (rsi_mac80211_sta_add room has_sgi p m)
  unfolding rsi_mac80211_sta_add Swapped add_found
  joins-Swapped has_sgi i q m t e lt queued =
      let room_left : leb m.max_stations m.num_stations ≡ false = ground arith in
      let (free, found) =
        scan_misses m p.addr (scan m.stations p.addr m.max_stations 0 none) t e
          (scan-Scans m.stations p.addr m.max_stations) in
      let k = index_or free m.max_stations in
      let came = add_new-queue room all p k m in
      let first : List Frame = peer_notify false p.addr (p.aid % 2 ^ 12) i p.wme ∷ q in
      let both : Extends (peer_notify true p.addr (p.aid % 2 ^ 12) k p.wme ∷ first)
          (add_new room p k m).queue =
        behind (peer_notify true p.addr (p.aid % 2 ^ 12) k p.wme) m.queue first
          (add_new room p k m).queue queued came in
      rw room_left (
        rw found (
          k,
          sgi-queue has_sgi (peer_notify true p.addr (p.aid % 2 ^ 12) k p.wme ∷ first)
              (add_new room p k m) both,
        ))

-- A station that is in a well-formed table leaves and joins again, with every buffer there, before
-- the transmit thread runs: it is not rejected, and at the head of the queue of management frames the
-- notification that it joined stands in front of the one that it left.
pub sta_add-sta_remove-Swapped :
    (room : ℕ → Bool) (has_sgi : Bool) (p : Peer) (i : ℕ) (m : Mac)
    → ((n : ℕ) → room n ≡ true)
    → IsTable m
    → i < m.max_stations
    → has_addr p.addr (m.stations i).sta ≡ true
    → Swapped p i m.queue (rsi_mac80211_sta_add room has_sgi p (rsi_mac80211_sta_remove room p m))
unfolding rsi_mac80211_sta_remove
sta_add-sta_remove-Swapped room has_sgi p i m all t lt h =
    let found =
      scan_finds m p.addr i (scan m.stations p.addr m.max_stations 0 none) t lt h
        (scan-Scans m.stations p.addr m.max_stations) in
    let m' : Mac = drop_at room p i m in
    let gone = drop_at-Removes room m p p.addr i t lt h in
    let (s, e, r, n) = drop_at-Replaces room p i m in
    let mine : (p.addr == p.addr) ≡ true = ground arith in
    let occupied = taken_of_has_addr p.addr (m.stations i).sta h in
    let some_taken = count_pos m.stations i m.max_stations lt occupied in
    let fits = count-le m.stations m.max_stations in
    let less : m'.num_stations < m'.max_stations =
      omega (arith, gone.2, n, t.counted, some_taken, fits) in
    rw found (
      unfold drop_found in
      (joins-Swapped room all p has_sgi i m.queue m' gone.0 (rw mine at gone.1) less
        (drop_at-queue room all p i m)))
