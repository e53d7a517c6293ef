-- ===== src/Stations/Scan.antt =====
-- What the loop over the station table (rsi/rsi_91x_mac80211.c) finds.
use si91x_rcp_driver.Prelude.{
  ℕ, zero, suc, ◌+◌, ◌≤◌, ◌<◌, ◌≡◌, ◌⊎◌, inl, inr, refl, sym, ap, ◌∙◌, Bool, true, false, Option,
  none, some, ◌==◌, arith, Bool-cases,
}
use si91x_rcp_driver.Stations.State.{Peer, Slot}
use si91x_rcp_driver.Stations.Table.{has_addr, is_free, Found, exists_at, absent, note_free, scan}

-- No slot from `lo` on, below `hi`, has the address.
abbrev pub Without : (ℕ → Slot) → (addr lo hi : ℕ) → Type 0
Without st addr lo hi = (j : ℕ) → lo ≤ j → j < hi → has_addr addr (st j).sta ≡ false

-- None of them is free.
abbrev pub Taken : (ℕ → Slot) → (lo hi : ℕ) → Type 0
Taken st lo hi = (j : ℕ) → lo ≤ j → j < hi → is_free (st j).sta ≡ false

-- `free` is what was found before `lo`.
unfoldable pub FreeIs : (ℕ → Slot) → (lo hi : ℕ) → Option ℕ → Option ℕ → Type 0
FreeIs st lo hi free none = (free ≡ none) × Taken st lo hi
FreeIs st lo hi free (some k) = (free ≡ some k) ⊎ ((k < hi) × (is_free (st k).sta ≡ true))

unfoldable pub Scans : (ℕ → Slot) → (addr lo hi : ℕ) → Option ℕ → Found → Type 0
Scans st addr lo hi free (exists_at k) = (k < hi) × (has_addr addr (st k).sta ≡ true)
Scans st addr lo hi free (absent found) = Without st addr lo hi × FreeIs st lo hi free found

-- One index more in front.
widen :
    (P : ℕ → Bool) (c : Bool) (lo hi : ℕ)
    → P lo ≡ c
    → ((j : ℕ) → lo + 1 ≤ j → j < hi → P j ≡ c)
    → (j : ℕ) → lo ≤ j
    → j < hi
    → P j ≡ c
widen P c lo hi here above j le lt = elim (Bool-cases (lo == j)) [
  | inl e ↦ (let same : lo ≡ j = ground arith in ap P (sym same) ∙ here)
  | inr e ↦ above j (ground arith) lt
]

module _ (st : ℕ → Slot) (addr : ℕ) where
  -- The free slot, with what stands at `lo`.
  widen_free :
      (lo hi : ℕ) (free found : Option ℕ) (o : Option Peer)
      → (st lo).sta ≡ o
      → lo < hi
      → FreeIs st (lo + 1) hi (note_free free o lo) found
      → FreeIs st lo hi free found
  unfolding FreeIs note_free
  widen_free lo hi none none none e lt (h, taken) = cc
  widen_free lo hi none none (some p) e lt (h, taken) =
      (refl, widen (λ j. is_free (st j).sta) false lo hi (ap is_free e) taken)
  widen_free lo hi (some k) none o e lt (h, taken) = cc
  widen_free lo hi none (some k) none e lt (inl h) =
      let same : lo ≡ k = cc in
      inr (ground (arith, same), ap (λ j. is_free (st j).sta) (sym same) ∙ ap is_free e)
  widen_free lo hi none (some k) (some p) e lt (inl h) = cc
  widen_free lo hi (some k') (some k) o e lt (inl h) = inl h
  widen_free lo hi free (some k) o e lt (inr h) = inr h

  widen-Scans :
      (lo hi : ℕ) (free : Option ℕ) (r : Found)
      → lo < hi
      → has_addr addr (st lo).sta ≡ false
      → Scans st addr (lo + 1) hi (note_free free (st lo).sta lo) r
      → Scans st addr lo hi free r
  unfolding Scans
  widen-Scans lo hi free (exists_at k) lt e p = p
  widen-Scans lo hi free (absent found) lt e (without, is) = (
    widen (λ j. has_addr addr (st j).sta) false lo hi e without,
    widen_free lo hi free found (st lo).sta refl lt is,
  )

  nothing_left : (lo : ℕ) (free : Option ℕ) → FreeIs st lo lo free free
  unfolding FreeIs
  nothing_left lo none = (refl, λ j le lt. absurd (omega arith))
  nothing_left lo (some k) = inl refl

  scan_from-Scans :
      (left lo hi : ℕ) (free : Option ℕ)
      → lo + left ≡ hi
      → Scans st addr lo hi free (scan st addr left lo free)
  unfolding scan
  scan_from-Scans zero lo hi free e =
      let same : hi ≡ lo = omega (arith, e) in
      rw same (unfold Scans in (λ j le lt. absurd (omega arith), nothing_left lo free))
  scan_from-Scans (suc left) lo hi free e = elim (Bool-cases (has_addr addr (st lo).sta)) [
    | inl t ↦ rw t (unfold Scans in (omega (arith, e), t))
    | inr t ↦ rw t (
        widen-Scans lo hi free _ (omega (arith, e)) t
          (scan_from-Scans left (lo + 1) hi (note_free free (st lo).sta lo) (omega (arith, e))))
  ]

  -- The loop of the handlers.
  pub scan-Scans : (n : ℕ) → Scans st addr 0 n none (scan st addr n 0 none)
  scan-Scans n = scan_from-Scans n 0 n none (omega arith)
