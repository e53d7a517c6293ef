-- ===== src/Beacon/Strip.antt =====
-- The beacon as a list of elements, in the loop of `rsi_prepare_beacon` (rsi/rsi_91x_hal.c).
use mathlib.Core.List.{append_assoc, append-nil}
use si91x_rcp_driver.Prelude.{
  ℕ, zero, suc, ◌+◌, ◌-◌, ◌%◌, ◌^◌, ◌≤◌, ◌<◌, ◌≡◌, inl, inr, refl, sym, ◌∙◌, ap, true, false, some,
  List, [], ◌∷◌, ◌++◌, length, length-append, take, drop, ◌==◌, if◌then◌else◌, arith, Bool-cases,
}
use si91x_rcp_driver.Rx.{byte}
use si91x_rcp_driver.Rx.Layout.{byte-append, drop-append, take-append}
use si91x_rcp_driver.Beacon.{Beacon, more, cut, strip_one, strip, beacon_country_ie}

-- An information element.
pub record Ie : Type 0 where
  pub id : ℕ
  pub content : List ℕ

abbrev pub ie_bytes : Ie → List ℕ
ie_bytes e = e.id ∷ length e.content ∷ e.content

unfoldable pub bytes_of : List Ie → List ℕ
bytes_of [] = []
bytes_of (e ∷ es) = ie_bytes e ++ bytes_of es

-- The elements without those of the country.
unfoldable pub without_country : List Ie → List Ie
without_country [] = []
without_country (e ∷ es) =
    let rest = without_country es in if e.id == beacon_country_ie then rest else e ∷ rest

-- The loop ends with a beacon that reads `expected`.
abbrev pub Leaves : ℕ → Beacon → List ℕ → Type 0
Leaves fuel b expected =
    (b' : Beacon) × (strip fuel b ≡ some (some b'))
    × (take b'.len b'.buffer ≡ expected)
    × (b'.len ≡ length expected)

-- The loop behind `pre`, with the elements that are left.
abbrev pub stands : List ℕ → List Ie → List ℕ → Beacon
stands pre es slack = record {
  buffer = pre ++ (bytes_of es ++ slack);
  len = length pre + length (bytes_of es);
  index = length pre;
}

Beacon-same : (b b' : Beacon) → b.buffer ≡ b'.buffer → b.len ≡ b'.len → b.index ≡ b'.index → b ≡ b'
Beacon-same b b' p q r = λ i. record { buffer = p i; len = q i; index = r i }

cut-moves :
    (b : Beacon) (size : ℕ) (pre moved slack : List ℕ)
    → take b.index b.buffer ≡ pre
    → b.len - (b.index + size) ≡ length moved
    → drop (b.index + size) b.buffer ≡ moved ++ slack
    → (cut size b).buffer ≡ pre ++ (moved ++ drop (b.index + length moved) b.buffer)
unfolding cut
cut-moves b size pre moved slack t n d =
    rw t (rw n (rw d (rw (take-append moved slack (length moved) refl) refl)))

module _ (pre : List ℕ) (e : Ie) (es : List Ie) (slack : List ℕ) where
  abbrev b : Beacon
  b = stands pre (e ∷ es) slack

  id_there : byte b.buffer (length pre) ≡ e.id
  unfolding bytes_of
  id_there =
      let here : length pre ≡ length pre + 0 = omega arith in
      ap (byte b.buffer) here ∙ byte-append pre (bytes_of (e ∷ es) ++ slack) 0

  len_there : byte b.buffer (length pre + 1) ≡ length e.content
  unfolding bytes_of
  len_there = byte-append pre (bytes_of (e ∷ es) ++ slack) 1

  size_there : b.len ≡ length pre + (length e.content + 2) + length (bytes_of es)
  unfolding bytes_of
  size_there = omega (arith, length-append e.content (bytes_of es))

  behind : b.buffer ≡ (pre ++ ie_bytes e) ++ (bytes_of es ++ slack)
  unfolding bytes_of
  behind = simp (append_assoc) refl

  rest_there : drop (length pre + (length e.content + 2)) b.buffer ≡ bytes_of es ++ slack
  rest_there =
      let here : length pre + (length e.content + 2) ≡ length (pre ++ ie_bytes e) + 0 =
        omega (arith, length-append pre (ie_bytes e)) in
      ap (λ n. drop n b.buffer) here
      ∙ ap (drop (length (pre ++ ie_bytes e) + 0)) behind
      ∙ drop-append (pre ++ ie_bytes e) (bytes_of es ++ slack) 0

  cut-country : (slack' : List ℕ) × (cut (length e.content + 2) b ≡ stands pre es slack')
  unfolding cut
  cut-country =
      let n : b.len - (length pre + (length e.content + 2)) ≡ length (bytes_of es) =
        omega (arith, size_there) in
      let short : b.len - (length e.content + 2) ≡ length pre + length (bytes_of es) =
        omega (arith, size_there) in
      (
        drop (length pre + length (bytes_of es)) b.buffer,
        Beacon-same (cut (length e.content + 2) b)
            (stands pre es (drop (length pre + length (bytes_of es)) b.buffer))
            (cut-moves b (length e.content + 2) pre (bytes_of es) slack
              (take-append pre (bytes_of (e ∷ es) ++ slack) (length pre) refl) n rest_there)
            short refl,
      )

  next_there :
      length pre + length (bytes_of (e ∷ es)) ≤ 255
      → record b { index = (length pre + (2 + length e.content)) % 2 ^ 8 }
        ≡ stands (pre ++ ie_bytes e) es slack
  next_there fits =
      Beacon-same (record b { index = (length pre + (2 + length e.content)) % 2 ^ 8 })
        (stands (pre ++ ie_bytes e) es slack) behind
        (omega (arith, size_there, length-append pre (ie_bytes e)))
        (omega (arith, size_there, length-append pre (ie_bytes e), fits))

strip-ended : (b : Beacon) (f : ℕ) → b.len ≤ b.index → strip (suc f) b ≡ some (some b)
unfolding strip strip_one
strip-ended b f le = ground (arith, le)

strip-more : (b b' : Beacon) (f : ℕ) → strip_one b ≡ more b' → strip (suc f) b ≡ strip f b'
unfolding strip
strip-more b b' f e = ground (arith, e)

strip_one-country :
    (pre : List ℕ) (e : Ie) (es : List Ie) (slack : List ℕ)
    → (e.id == beacon_country_ie) ≡ true
    → strip_one (stands pre (e ∷ es) slack)
      ≡ more (cut (length e.content + 2) (stands pre (e ∷ es) slack))
unfolding strip_one
strip_one-country pre e es slack k =
    ground (arith, k, id_there pre e es slack, len_there pre e es slack, size_there pre e es slack)

strip_one-next :
    (pre : List ℕ) (e : Ie) (es : List Ie) (slack : List ℕ)
    → (e.id == beacon_country_ie) ≡ false
    → strip_one (stands pre (e ∷ es) slack)
      ≡ more (record (stands pre (e ∷ es) slack) {
        index = (length pre + (2 + length e.content)) % 2 ^ 8;
      })
unfolding strip_one
strip_one-next pre e es slack k =
    ground (arith, k, id_there pre e es slack, len_there pre e es slack, size_there pre e es slack)

pub strips :
    (es : List Ie) (pre slack : List ℕ) (fuel : ℕ)
    → length pre + length (bytes_of es) ≤ 255
    → length es < fuel
    → Leaves fuel (stands pre es slack) (pre ++ bytes_of (without_country es))
unfolding bytes_of without_country
strips es pre slack zero fits le = absurd (omega (arith, le))
strips [] pre slack (suc fuel) fits le = (
  stands pre [] slack,
  strip-ended (stands pre [] slack) fuel (omega arith),
  take-append pre slack (length pre + 0) (omega arith) ∙ sym (append-nil pre),
  sym (length-append pre []),
)
strips (e ∷ es) pre slack (suc fuel) fits le =
    let (slack', c) = cut-country pre e es slack in
    let n = next_there pre e es slack fits in
    let whole : length pre + length (bytes_of (e ∷ es))
        ≡ length pre + (length e.content + 2) + length (bytes_of es) =
      size_there pre e es slack in
    elim (Bool-cases (e.id == beacon_country_ie)) [
      | inl k ↦
          let (b', r, t, l) =
            strips es pre slack' fuel (omega (arith, whole, fits)) (omega (arith, le)) in
          let step =
            strip-more (stands pre (e ∷ es) slack) (stands pre es slack') fuel
              (strip_one-country pre e es slack k ∙ ap more c) in
          (b', step ∙ r, rw k t, rw k l)
      | inr k ↦
          let (b', r, t, l) =
            strips es (pre ++ ie_bytes e) slack fuel
              (omega (arith, whole, fits, length-append pre (ie_bytes e))) (omega (arith, le)) in
          let kept = append_assoc pre (ie_bytes e) (bytes_of (without_country es)) in
          let step =
            strip-more (stands pre (e ∷ es) slack) (stands (pre ++ ie_bytes e) es slack) fuel
              (strip_one-next pre e es slack k ∙ ap more n) in
          (b', step ∙ r, rw k (t ∙ kept), rw k (l ∙ ap length kept))
    ]
