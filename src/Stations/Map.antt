-- ===== src/Stations/Map.antt =====
-- The station table (rsi/rsi_91x_mac80211.c) as a finite map from addresses to stations.
use si91x_rcp_driver.Prelude.{
  ℕ, zero, suc, ◌<◌, ◌≡◌, inl, inr, refl, sym, ap, ◌∙◌, true, false, Option, none, some, ◌==◌,
  if◌then◌else◌, arith, Bool-cases, update, update_self,
}
use si91x_rcp_driver.Stations.State.{Peer, Slot, Mac}
use si91x_rcp_driver.Stations.Table.{has_addr, is_free, fresh_slot}
use si91x_rcp_driver.Stations.Invariant.{Replaces, IsTable, Alone}

unfoldable pub find_below : (ℕ → Slot) → (addr : ℕ) → ℕ → Option Peer
find_below st addr zero = none
find_below st addr (suc n) =
    let rest = find_below st addr n in if has_addr addr (st n).sta then (st n).sta else rest

-- The station with the address.
unfoldable pub find : Mac → ℕ → Option Peer
find m addr = find_below m.stations addr m.max_stations

module _ (st : ℕ → Slot) (addr : ℕ) where
  find_none :
      (n : ℕ) → ((j : ℕ) → j < n → has_addr addr (st j).sta ≡ false) → find_below st addr n ≡ none
  unfolding find_below
  find_none zero without = refl
  find_none (suc n) without =
      rw (without n (omega arith)) (find_none n (λ j lt. without j (omega arith)))

  find_at :
      (i n : ℕ)
      → i < n
      → has_addr addr (st i).sta ≡ true
      → Alone st addr i n
      → find_below st addr n ≡ (st i).sta
  unfolding find_below
  find_at i zero lt h alone = absurd (omega arith)
  find_at i (suc n) lt h alone = elim (Bool-cases (i == n)) [
    | inl e ↦
        (let same : i ≡ n = ground arith in
          let here : has_addr addr (st n).sta ≡ true =
            ap (λ k. has_addr addr (st k).sta) (sym same) ∙ h in
          rw here (ap (λ k. (st k).sta) (sym same)))
    | inr e ↦
        rw (alone n (omega arith) e)
          (find_at i n (ground arith) h (λ j jlt ne. alone j (omega arith) ne))
  ]

  find_update :
      (i : ℕ) (s : Slot) (n : ℕ)
      → has_addr addr s.sta ≡ false
      → has_addr addr (st i).sta ≡ false
      → find_below (update st i s) addr n ≡ find_below st addr n
  unfolding find_below
  find_update i s zero new old = refl
  find_update i s (suc n) new old = elim (Bool-cases (i == n)) [
    | inl e ↦
        (let same : i ≡ n = ground arith in
          let was : has_addr addr (st n).sta ≡ false =
            ap (λ k. has_addr addr (st k).sta) (sym same) ∙ old in
          rw e (rw new (rw was (find_update i s n new old))))
    | inr e ↦ rw e (rw (find_update i s n new old) refl)
  ]

pub free_without : (addr : ℕ) (o : Option Peer) → is_free o ≡ true → has_addr addr o ≡ false
unfolding has_addr
free_without addr none h = refl
free_without addr (some p) h = cc

pub has_addr_other :
    (addr addr' : ℕ) (o : Option Peer)
    → has_addr addr o ≡ true
    → (addr == addr') ≡ false
    → has_addr addr' o ≡ false
unfolding has_addr
has_addr_other addr addr' none h ne = refl
has_addr_other addr addr' (some p) h ne = ground arith

find_put :
    (st : ℕ → Slot) (i : ℕ) (s : Slot) (addr n : ℕ)
    → i < n
    → has_addr addr s.sta ≡ true
    → Alone st addr i n
    → find_below (update st i s) addr n ≡ s.sta
find_put st i s addr n lt h alone =
    find_at (update st i s) addr i n lt (ap (λ x. has_addr addr x.sta) (update_self st i s) ∙ h)
      (λ j jlt ne. rw ne (alone j jlt ne))
    ∙ ap (λ x. x.sta) (update_self st i s)

-- A slot gets a station whose address no other slot has, and that was free or had this address.
pub find_fresh :
    (m m' : Mac) (p : Peer) (i addr : ℕ)
    → Replaces i (fresh_slot p i) m m'
    → i < m.max_stations
    → ((addr' : ℕ) → (p.addr == addr') ≡ false → has_addr addr' (m.stations i).sta ≡ false)
    → Alone m.stations p.addr i m.max_stations
    → find m' addr ≡ (if p.addr == addr then some p else find m addr)
unfolding find fresh_slot
find_fresh m m' p i addr r lt old alone = rw r.0 (
    rw r.1 (elim (Bool-cases (p.addr == addr)) [
      | inl e ↦
          (let same : p.addr ≡ addr = ground arith in
            rw e (
              find_put m.stations i (fresh_slot p i) addr m.max_stations lt (unfold has_addr in e)
                (rw same at alone)))
      | inr e ↦ rw e (
          find_update m.stations addr i (fresh_slot p i) m.max_stations (unfold has_addr in e)
            (old addr e))
    ]))

-- A slot loses its station.
pub find_gone :
    (m m' : Mac) (i : ℕ) (s : Slot) (addr addr' : ℕ)
    → Replaces i s m m'
    → s.sta ≡ none
    → i < m.max_stations
    → has_addr addr (m.stations i).sta ≡ true
    → Alone m.stations addr i m.max_stations
    → find m' addr' ≡ (if addr == addr' then none else find m addr')
unfolding find
find_gone m m' i s addr addr' r e lt h alone = rw r.0 (
    rw r.1 (elim (Bool-cases (addr == addr')) [
      | inl t ↦
          (let same : addr ≡ addr' = ground arith in
            rw t (
              find_none (update m.stations i s) addr' m.max_stations
                (λ j jlt. rw (sym same) (gone j jlt))))
      | inr t ↦ rw t (
          find_update m.stations addr' i s m.max_stations (no_addr addr')
            (has_addr_other addr addr' (m.stations i).sta h t))
    ]))
  where
    no_addr : (a : ℕ) → has_addr a s.sta ≡ false
    no_addr a = rw e (free_without a none refl)

    gone : (j : ℕ) → j < m.max_stations → has_addr addr (update m.stations i s j).sta ≡ false
    gone j jlt = elim (Bool-cases (i == j)) [
      | inl t ↦ rw t (no_addr addr)
      | inr t ↦ rw t (alone j jlt t)
    ]

-- In a table, the slot of an address is the only one.
pub alone_of :
    (m : Mac) (t : IsTable m) (addr i j : ℕ)
    → i < m.max_stations
    → j < m.max_stations
    → has_addr addr (m.stations i).sta ≡ true
    → (i == j) ≡ false
    → has_addr addr (m.stations j).sta ≡ false
alone_of m t addr i j lt jlt h ne = elim (Bool-cases (has_addr addr (m.stations j).sta)) [
  | inl h' ↦ (let same = t.distinct addr i j lt jlt h h' in absurd (ground (arith, same)))
  | inr h' ↦ h'
]

-- An address that no slot has.
pub find_without :
    (m : Mac) (addr addr' : ℕ)
    → ((j : ℕ) → j < m.max_stations → has_addr addr (m.stations j).sta ≡ false)
    → find m addr' ≡ (if addr == addr' then none else find m addr')
unfolding find
find_without m addr addr' without = elim (Bool-cases (addr == addr')) [
  | inl t ↦
      (let same : addr ≡ addr' = ground arith in
        rw t (find_none m.stations addr' m.max_stations (rw same at without)))
  | inr t ↦ rw t refl
]

-- A slot with the address, in a table.
pub find_in_table :
    (m : Mac) (t : IsTable m) (addr i : ℕ)
    → i < m.max_stations
    → has_addr addr (m.stations i).sta ≡ true
    → find m addr ≡ (m.stations i).sta
unfolding find
find_in_table m t addr i lt h =
    find_at m.stations addr i m.max_stations lt h (λ j jlt ne. alone_of m t addr i j lt jlt h ne)
