-- ===== src/Rx/Turns.antt =====
-- How many rounds the loop of `rsi_read_pkt` (rsi/rsi_91x_main.c) takes.
use si91x_rcp_driver.Prelude.{
  ℕ, zero, suc, ◌+◌, ◌*◌, ◌^◌, ◌≤◌, ◌<◌, ◌≡◌, ◌≢◌, ◌⊎◌, inl, inr, refl, Bool, true, false, ◌&&◌,
  Option, none, some, List, ◌==◌, arith, Bool-cases,
}
use native.Mathlib.Nat.{zero-add}
use si91x_rcp_driver.Rx.{
  Build, Env, Rx, Turn, stop, fail, more, u16, get_queueno, get_length, get_extended_desc,
  prepare_skb, advance, indicate_pkt, recv_data, recv_zigb, call, dispatch, set_extended_desc,
  read_one, read_loop, read_pkt, rsi_zigb_q,
}

-- A round that goes on has at least twenty bytes less to go, or none.
abbrev Shrinks : ℕ → Turn → Type 0
Shrinks n (stop s) = Unit
Shrinks n (fail s) = Unit
Shrinks n (more s) = (s.left ≡ 0) ⊎ (s.left + 20 ≤ n)

module _ (build : Build) (env : Env) (bytes : List ℕ) where
  advance-Shrinks :
      (n : ℕ) (s : Rx)
      → 20 ≤ n
      → (s₀ : Rx) → s.left ≡ s₀.left
      → Shrinks s₀.left (more (advance build env bytes n s))
  unfolding advance
  advance-Shrinks n s le s₀ e = ground arith

  prepare_skb-left : (at n : ℕ) (s : Rx) → (prepare_skb build env bytes at n s).1.left ≡ s.left
  unfolding prepare_skb
  prepare_skb-left at n s = ground arith

  recv_data-Shrinks :
      (at n len : ℕ) (s : Rx) → 20 ≤ len → Shrinks s.left (recv_data build env bytes at n len s)
  unfolding recv_data indicate_pkt advance
  recv_data-Shrinks at n len s le = ground (arith, prepare_skb-left at n s)

  dispatch-Shrinks :
      (q n at len : ℕ) (s : Rx)
      → build.coex_mode && build.zigb ≡ false
      → 20 ≤ len ⊎ (q ≡ rsi_zigb_q)
      → Shrinks s.left (dispatch build env bytes q n at len s)
  unfolding dispatch call advance
  dispatch-Shrinks q n at len s off le = ground (arith, off, recv_data-Shrinks at n len s)

  read_one-Shrinks :
      (s : Rx) → build.coex_mode && build.zigb ≡ false → Shrinks s.left (read_one build env bytes s)
  unfolding read_one set_extended_desc
  read_one-Shrinks s off =
      let at = s.index + u16 bytes (s.index + 2) in
      let q = get_queueno bytes at in
      let d = dispatch-Shrinks q (get_length bytes at) at (u16 bytes s.index) in
      ground (arith, d s off, d (record s { extended_desc = get_extended_desc bytes at }) off)

  read_loop_total :
      (f : ℕ) (s : Rx)
      → build.coex_mode && build.zigb ≡ false
      → s.left < 20 * f
      → (r : Bool × Rx) × (read_loop build env bytes f s ≡ some r)
  unfolding read_loop
  read_loop_total zero s off lt = absurd (omega arith)
  read_loop_total (suc f) s off lt =
      by_turn (read_one build env bytes s) (read_one-Shrinks s off)
        (λ s' h. read_loop_total f s' off h)
    where
      by_turn :
          (t : Turn)
          → Shrinks s.left t
          → ((s' : Rx)
              → s'.left < 20 * f
              → (r : Bool × Rx) × (read_loop build env bytes f s' ≡ some r))
          → (r : Bool × Rx) × ((elim t as (λ (x : Turn). Option (Bool × Rx)) [
            | stop s' ↦ some (true, s')
            | fail s' ↦ some (false, s')
            | more s' ↦ elim (s'.left == 0) [
              | true ↦ some (true, s')
              | false ↦ read_loop build env bytes f s'
            ]
          ])
              ≡ some r)
      by_turn (stop s') h rec = ((true, s'), refl)
      by_turn (fail s') h rec = ((false, s'), refl)
      by_turn (more s') h rec = elim (Bool-cases (s'.left == 0)) [
        | inl e ↦ ((true, s'), rw e refl)
        | inr e ↦ let (r, h') = rec s' (ground arith) in (r, rw e h')
      ]

  -- Without Zigbee in the build, `rsi_read_pkt` ends on every buffer, well formed or not: as many
  -- rounds are enough as there are steps of twenty bytes in the received length, and one more.
  pub read_pkt_total :
      (f rcv_pkt_len : ℕ) (s : Rx)
      → build.coex_mode && build.zigb ≡ false
      → rcv_pkt_len < 20 * f
      → (r : Bool × Rx) × (read_pkt build env bytes f rcv_pkt_len s ≡ some r)
  unfolding read_pkt
  read_pkt_total f rcv_pkt_len s off lt =
      read_loop_total f (record s { index = 0; left = rcv_pkt_len; extended_desc = 0 }) off lt

  spin_step :
      (s : Rx)
      → build.coex_mode && build.zigb ≡ true
      → u16 bytes s.index ≡ 0
      → get_queueno bytes (s.index + u16 bytes (s.index + 2)) ≡ rsi_zigb_q
      → s.index < 2 ^ 32
      → (s' : Rx) × (read_one build env bytes s ≡ more s')
        × (s'.index ≡ s.index)
        × (s'.left ≡ s.left)
  unfolding read_one dispatch recv_zigb advance set_extended_desc
  spin_step s on len q lt = (
    advance build env bytes 0 (recv_zigb build env bytes (s.index + u16 bytes (s.index + 2)) s),
    ground (arith, on, len, q),
    ground arith,
    ground arith,
  )

  read_loop_spins :
      (f : ℕ) (s : Rx)
      → build.coex_mode && build.zigb ≡ true
      → u16 bytes s.index ≡ 0
      → get_queueno bytes (s.index + u16 bytes (s.index + 2)) ≡ rsi_zigb_q
      → s.index < 2 ^ 32
      → s.left ≢ 0
      → read_loop build env bytes f s ≡ none
  unfolding read_loop
  read_loop_spins zero s on len q lt go = refl
  read_loop_spins (suc f) s on len q lt go =
      let (s', e, i, l) = spin_step s on len q lt in
      let there : u16 bytes s'.index ≡ 0 = rw i len in
      let same : get_queueno bytes (s'.index + u16 bytes (s'.index + 2)) ≡ rsi_zigb_q = rw i q in
      ground (
        arith,
        e,
        i,
        l,
        read_loop_spins f s' on there same (omega (arith, i)) (λ z. go (omega (arith, l, z))),
      )

  -- With Zigbee in the build, a Zigbee packet whose length field is 0 at the head of a buffer that
  -- is not empty keeps `rsi_read_pkt` in its loop for ever: no fuel is enough.
  pub read_pkt_spins :
      (f rcv_pkt_len : ℕ) (s : Rx)
      → build.coex_mode && build.zigb ≡ true
      → u16 bytes 0 ≡ 0
      → get_queueno bytes (u16 bytes 2) ≡ rsi_zigb_q
      → rcv_pkt_len ≢ 0
      → read_pkt build env bytes f rcv_pkt_len s ≡ none
  unfolding read_pkt
  read_pkt_spins f rcv_pkt_len s on len q go =
      read_loop_spins f (record s { index = 0; left = rcv_pkt_len; extended_desc = 0 }) on len
        (rw zero-add q) (omega arith) go
