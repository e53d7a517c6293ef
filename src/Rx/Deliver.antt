-- ===== src/Rx/Deliver.antt =====
-- What `rsi_read_pkt` (rsi/rsi_91x_main.c) hands on from a buffer of several frames.
use mathlib.Core.List.{append_assoc}
use si91x_rcp_driver.Prelude.{
  ℕ, zero, suc, ◌+◌, ◌-◌, ◌%◌, ◌^◌, ◌≤◌, ◌<◌, ◌≡◌, ◌⊎◌, inl, inr, ◌∙◌, ap, refl, true, some, List,
  [], ◌∷◌, ◌++◌, length, length-append, map, arith, Bool-cases,
}
use si91x_rcp_driver.Rx.{
  Build, Env, Rx, Skb, more, mgmt_pkt_recv, byte, get_extended_desc, prepare_skb, advance,
  indicate_pkt, recv_data, call, dispatch, set_extended_desc, read_one, read_loop, read_pkt,
  rsi_wifi_data_q, rsi_wifi_mgmt_q,
}
use si91x_rcp_driver.Rx.Layout.{Frame, pkt_len, size, lay, lay_all, length-lay}
use si91x_rcp_driver.Rx.Stands.{
  network, received, content, AreWifi, Stands, length-lay_all, next_frame, reaches_frame, empty,
  lay_all-nonempty,
}

module _ (build : Build) (env : Env) (there : (n size : ℕ) → env.alloc n size ≡ true) where
  -- The round for the frame `f` at the index.
  module _ (bytes : List ℕ) (f : Frame) (s : Rx) (h : Stands bytes s.index f) where
    abbrev at : ℕ
    at = s.index + (4 + length f.pad)

    enters :
        read_one build env bytes s
        ≡ dispatch build env bytes f.queueno
            (pkt_len f)
            at
            (size f)
            (set_extended_desc build env bytes f.queueno at s)
    unfolding read_one
    enters = rw h.offset_there (
        rw h.queueno_there
          (rw h.length_there (rw h.size_there (ground (arith, h.is_frame.some_payload)))))

    -- What a round for it does.
    Takes : Type 0
    Takes =
        (s' : Rx) × (read_one build env bytes s ≡ more s')
        × (s'.index ≡ (s.index + size f) % 2 ^ 32)
        × (s'.left ≡ s.left - size f)
        × (received bytes s'.calls ≡ received bytes s.calls ++ (content f ∷ []))

    takes_message : f.queueno ≡ rsi_wifi_mgmt_q → Takes
    unfolding Takes dispatch set_extended_desc call advance received content
    takes_message e =
        let s₁ : Rx = record s { extended_desc = get_extended_desc bytes at } in
        let same : read_one build env bytes s
            ≡ more (advance build env bytes (size f) (call build env bytes (mgmt_pkt_recv at) s₁)) =
          enters ∙ ground (arith, e) in
        (
          advance build env bytes (size f) (call build env bytes (mgmt_pkt_recv at) s₁),
          same,
          refl,
          refl,
          rw h.length_there (rw h.message_there (rw e refl)),
        )

    skb : Skb
    skb = record {
      from = at + (length f.extra + 16) % 2 ^ 8;
      len = (pkt_len f + 2 ^ 32 - length f.extra) % 2 ^ 32;
      rssi = byte bytes (at + 16);
      channel = env.channel s.calls;
    }

    prepares :
        (s₁ : Rx)
        → s₁.calls ≡ s.calls
        → s₁.extended_desc ≡ length f.extra
        → prepare_skb build env bytes at (pkt_len f) s₁
          ≡ (some skb, record s₁ { allocs = s₁.allocs + 1 })
    unfolding prepare_skb skb
    prepares s₁ c e =
        let fits : length f.extra + length f.payload < 2 ^ 12 = h.is_frame.pkt_fits in
        rw c (rw e (rw (there s₁.allocs) (ground (arith, fits, h.is_frame.some_payload))))

    indicates :
        (s₁ : Rx)
        → s₁.calls ≡ s.calls
        → received bytes (indicate_pkt build env bytes at skb s₁).calls
          ≡ received bytes s.calls ++ ((network, f.payload) ∷ [])
    unfolding indicate_pkt received skb
    indicates s₁ c =
        let fits : length f.extra + length f.payload < 2 ^ 12 = h.is_frame.pkt_fits in
        let len : (pkt_len f + 2 ^ 32 - length f.extra) % 2 ^ 32 ≡ length f.payload =
          omega (arith, fits) in
        let from : (length f.extra + 16) % 2 ^ 8 ≡ length f.extra + 16 =
          omega (arith, h.is_frame.extra_fits) in
        rw len (
          rw from (
            rw h.payload_there (elim (Bool-cases (env.watches s₁.calls)) [
              | inl e ↦ rw e (rw c refl)
              | inr e ↦ rw e (rw c refl)
            ])))

    takes_data : f.queueno ≡ rsi_wifi_data_q → Takes
    unfolding Takes dispatch set_extended_desc recv_data advance content indicate_pkt
    takes_data e =
        let s₁ : Rx = record s { extended_desc = get_extended_desc bytes at } in
        let s₂ : Rx = record s₁ { allocs = s₁.allocs + 1 } in
        let same : read_one build env bytes s
            ≡ more (advance build env bytes (size f) (indicate_pkt build env bytes at skb s₂)) =
          enters ∙ ground (arith, e, prepares s₁ refl h.extended_there) in
        (
          advance build env bytes (size f) (indicate_pkt build env bytes at skb s₂),
          same,
          refl,
          refl,
          rw e (indicates s₂ refl),
        )

    takes : (f.queueno ≡ rsi_wifi_data_q) ⊎ (f.queueno ≡ rsi_wifi_mgmt_q) → Takes
    takes (inl e) = takes_data e
    takes (inr e) = takes_message e

  -- What the loop has done when it has taken the frames.
  Ends : List ℕ → List Frame → Rx → ℕ → Type 0
  Ends bytes fs s fuel =
      (s' : Rx) × (read_loop build env bytes fuel s ≡ some (true, s'))
      × (received bytes s'.calls ≡ received bytes s.calls ++ map content fs)

  last_round :
      (bytes : List ℕ) (f : Frame) (s s' : Rx) (fuel : ℕ)
      → read_one build env bytes s ≡ more s'
      → s'.left ≡ 0
      → received bytes s'.calls ≡ received bytes s.calls ++ (content f ∷ [])
      → Ends bytes (f ∷ []) s (suc fuel)
  unfolding Ends read_loop
  last_round bytes f s s' fuel r l c = (s', ground (arith, r, l), c)

  next_round :
      (bytes : List ℕ) (f : Frame) (fs : List Frame) (s s' : Rx) (fuel : ℕ)
      → read_one build env bytes s ≡ more s'
      → 1 ≤ s'.left
      → received bytes s'.calls ≡ received bytes s.calls ++ (content f ∷ [])
      → Ends bytes fs s' fuel
      → Ends bytes (f ∷ fs) s (suc fuel)
  unfolding Ends read_loop
  next_round bytes f fs s s' fuel r l c (s'', r', c') = (
    s'',
    ground (arith, r, l, r'),
    c'
        ∙ ap (λ xs. xs ++ map content fs) c
        ∙ append_assoc (received bytes s.calls) (content f ∷ []) (map content fs),
  )

  -- From a round on, behind `pre`.
  delivers :
      (f : Frame) (fs : List Frame) (pre : List ℕ) (bytes : List ℕ) (s : Rx) (fuel : ℕ)
      → bytes ≡ pre ++ lay_all (f ∷ fs)
      → AreWifi (f ∷ fs)
      → s.index ≡ length pre
      → s.left ≡ length (lay_all (f ∷ fs))
      → length bytes < 2 ^ 32
      → length fs < fuel
      → Ends bytes (f ∷ fs) s fuel
  unfolding AreWifi Takes
  delivers f fs pre bytes s zero e h i l fits le = absurd (omega (arith, le))
  delivers f fs pre bytes s (suc fuel) e (hf, h) i l fits le =
      let (s', r, i', l', c') =
        takes bytes f s (reaches_frame pre f fs bytes s.index e i hf.frame) hf.queue in
      let sizes = length-lay_all f fs hf.frame in
      let left : s'.left ≡ length (lay_all fs) = omega (arith, l, l', sizes) in
      let whole : length bytes ≡ length pre + length (lay_all (f ∷ fs)) =
        ap length e ∙ length-append pre (lay_all (f ∷ fs)) in
      let index : s'.index ≡ length (pre ++ lay f []) =
        omega
          (arith, i, i', whole, sizes, fits, length-append pre (lay f []), length-lay f hf.frame) in
      rest fs h le s' r left c' index (e ∙ next_frame pre f fs) (λ g gs s' moved h index left lt.
        delivers g gs (pre ++ lay f []) bytes s' fuel moved h index left fits lt)
    where
      rest :
          (fs : List Frame)
          → AreWifi fs
          → length fs < suc fuel
          → (s' : Rx) → read_one build env bytes s ≡ more s'
          → s'.left ≡ length (lay_all fs)
          → received bytes s'.calls ≡ received bytes s.calls ++ (content f ∷ [])
          → s'.index ≡ length (pre ++ lay f [])
          → bytes ≡ (pre ++ lay f []) ++ lay_all fs
          → ((g : Frame) (gs : List Frame) (s' : Rx)
              → bytes ≡ (pre ++ lay f []) ++ lay_all (g ∷ gs)
              → AreWifi (g ∷ gs)
              → s'.index ≡ length (pre ++ lay f [])
              → s'.left ≡ length (lay_all (g ∷ gs))
              → length gs < fuel
              → Ends bytes (g ∷ gs) s' fuel)
          → Ends bytes (f ∷ fs) s (suc fuel)
      rest [] h le s' r left c' index moved rec = last_round bytes f s s' fuel r (left ∙ empty) c'
      rest (g ∷ fs) h le s' r left c' index moved rec =
          next_round bytes f (g ∷ fs) s s' fuel r (rw left (lay_all-nonempty g fs h.0.frame)) c'
            (rec g fs s' moved h index left (omega (arith, le)))

  -- When every buffer is allocated, `rsi_read_pkt` on a buffer that holds data and management frames
  -- one after the other, each with a payload, an extended descriptor of fewer than 240 bytes and
  -- lengths that fit their fields, returns 0 and hands on exactly the frames, in order: the payload
  -- of a data frame to the network stack, and the whole of a management frame to the driver, and nothing
  -- to the coexistence, Bluetooth or Zigbee module.
  pub read_pkt-delivers :
      (f : Frame) (fs : List Frame) (s : Rx) (fuel : ℕ)
      → AreWifi (f ∷ fs)
      → length (lay_all (f ∷ fs)) < 2 ^ 32
      → length fs < fuel
      → (s' : Rx) × (read_pkt build env (lay_all (f ∷ fs)) fuel (length (lay_all (f ∷ fs))) s
          ≡ some (true, s'))
        × (received (lay_all (f ∷ fs)) s'.calls
            ≡ received (lay_all (f ∷ fs)) s.calls ++ map content (f ∷ fs))
  unfolding read_pkt Ends
  read_pkt-delivers f fs s fuel h fits le =
      let bytes = lay_all (f ∷ fs) in
      let s₀ : Rx = record s { index = 0; left = length bytes; extended_desc = 0 } in
      delivers f fs [] bytes s₀ fuel refl h refl refl fits le
