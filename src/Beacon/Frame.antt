-- ===== src/Beacon/Frame.antt =====
-- The frame that `rsi_prepare_beacon` (rsi/rsi_91x_hal.c) makes of a beacon.
use mathlib.Core.List.{append_assoc}
use si91x_rcp_driver.Prelude.{
  ℕ, ◌+◌, ◌^◌, ◌≤◌, ◌<◌, ◌≡◌, inl, inr, refl, sym, ◌∙◌, ap, true, false, Option, some, List, [],
  ◌∷◌, ◌++◌, length, length-append, take, drop, ◌==◌, if◌then◌else◌, arith, Bool-cases,
}
use si91x_rcp_driver.Rx.{get_length, get_queueno, rsi_wifi_data_q}
use si91x_rcp_driver.Rx.Layout.{take-append}
use si91x_rcp_driver.Xmit.{Desc, header}
use si91x_rcp_driver.Xmit.Words.{or-nibble}
use si91x_rcp_driver.Beacon.{
  Beacon, beacon_country_ie, strip, Mode, beacon_words, Prepared, frame, finish, prepare_beacon,
}
use si91x_rcp_driver.Beacon.Strip.{Ie, bytes_of, without_country, strips}

-- A frame for the data queue with this body, as the readers of a descriptor see it.
abbrev pub Carries : List ℕ → Option Prepared → Type 0
Carries body r =
    (bytes : List ℕ) × (r ≡ some (frame bytes))
    × (get_queueno bytes 0 ≡ rsi_wifi_data_q)
    × (get_length bytes 0 ≡ length body)
    × (drop 16 bytes ≡ body)

finish-Carries :
    (d : Desc) (b : Beacon) (body : List ℕ)
    → take b.len b.buffer ≡ body
    → b.len ≡ length body
    → b.len < 2 ^ 12
    → Carries body (some (finish d (some b)))
unfolding finish header get_queueno get_length
finish-Carries d b body t l fits =
    let sum = or-nibble b.len 5 fits in
    (_, refl, omega (arith, sum, fits), omega (arith, sum, fits, l), t)

shorter : (es : List Ie) → length (bytes_of (without_country es)) ≤ length (bytes_of es)
unfolding bytes_of without_country
shorter [] = omega arith
shorter (e ∷ es) = elim (Bool-cases (e.id == beacon_country_ie)) [
  | inl k ↦ rw k (omega (arith, shorter es, length-append e.content (bytes_of es)))
  | inr k ↦ rw k (
      omega (
        arith,
        shorter es,
        length-append e.content (bytes_of es),
        length-append e.content (bytes_of (without_country es)),
      ))
]

-- A beacon in a buffer.
abbrev pub beacon_of : List ℕ → List Ie → (slack : List ℕ) → (index : ℕ) → Beacon
beacon_of fixed es slack index = record {
  buffer = fixed ++ (bytes_of es ++ slack);
  len = length fixed + length (bytes_of es);
  index = index;
}

prepare_beacon_acx :
    (m : Mode) (tim_offset fuel : ℕ) (b b' : Beacon)
    → m.acx_module ≡ true
    → strip fuel (record b { index = 36 }) ≡ some (some b')
    → prepare_beacon fuel m tim_offset (some b)
      ≡ some (finish (beacon_words m tim_offset b) (some b'))
unfolding prepare_beacon
prepare_beacon_acx m tim_offset fuel b b' k r = ground (arith, k, r)

prepare_beacon_plain :
    (m : Mode) (tim_offset fuel : ℕ) (b : Beacon)
    → m.acx_module ≡ false
    → prepare_beacon fuel m tim_offset (some b)
      ≡ some (finish (beacon_words m tim_offset b) (some b))
unfolding prepare_beacon
prepare_beacon_plain m tim_offset fuel b k = ground (arith, k)

-- For a beacon of 36 bytes and elements that come to at most 255 bytes in all, with more rounds
-- allowed than there are elements, `rsi_prepare_beacon` makes a frame for the data queue whose length
-- field and whose bytes behind the descriptor are those of the beacon, without the elements of the
-- country if the device is an acx module.
pub prepare_beacon-Carries :
    (m : Mode) (tim_offset fuel index : ℕ) (fixed : List ℕ) (es : List Ie) (slack : List ℕ)
    → length fixed ≡ 36
    → length fixed + length (bytes_of es) ≤ 255
    → length es < fuel
    → Carries
        (fixed ++ bytes_of (if m.acx_module then without_country es else es))
        (prepare_beacon fuel m tim_offset (some (beacon_of fixed es slack index)))
prepare_beacon-Carries m tim_offset fuel index fixed es slack start fits le =
    let b = beacon_of fixed es slack index in
    let d = beacon_words m tim_offset b in
    elim (Bool-cases m.acx_module) [
      | inl k ↦
          let kept : fixed ++ bytes_of (without_country es)
              ≡ fixed ++ bytes_of (if m.acx_module then without_country es else es) =
            sym (ap (λ a. fixed ++ bytes_of (if a then without_country es else es)) k) in
          let (b', r, t, l) = strips es fixed slack fuel fits le in
          let small = length-append fixed (bytes_of (without_country es)) in
          let (bytes, e, q, g, c) =
            finish-Carries d b' (fixed ++ bytes_of (without_country es)) t l
              (omega (arith, l, small, shorter es, start, fits)) in
          let started = ap (λ i. strip fuel (beacon_of fixed es slack i)) (sym start) ∙ r in
          (
            bytes,
            prepare_beacon_acx m tim_offset fuel b b' k started ∙ e,
            q,
            g ∙ ap length kept,
            c ∙ kept,
          )
      | inr k ↦
          let kept : fixed ++ bytes_of es
              ≡ fixed ++ bytes_of (if m.acx_module then without_country es else es) =
            sym (ap (λ a. fixed ++ bytes_of (if a then without_country es else es)) k) in
          let size = length-append fixed (bytes_of es) in
          let whole =
            ap (take b.len) (sym (append_assoc fixed (bytes_of es) slack))
            ∙ take-append (fixed ++ bytes_of es) slack b.len (sym size) in
          let (bytes, e, q, g, c) =
            finish-Carries d b (fixed ++ bytes_of es) whole (sym size) (omega (arith, fits)) in
          (bytes, prepare_beacon_plain m tim_offset fuel b k ∙ e, q, g ∙ ap length kept, c ∙ kept)
    ]
