-- ===== src/Stations/Invariant.antt =====
-- The station table (rsi/rsi_91x_mac80211.c) stays well-formed.
use mathlib.Core.Path.{fun_ext}
use si91x_rcp_driver.Prelude.{
  ℕ, ◌+◌, ◌-◌, ◌<◌, ◌≡◌, inl, inr, refl, sym, ap, ◌∙◌, Bool, true, false, Option, none, some, ◌==◌,
  arith, Bool-cases, update, replicate,
}
use si91x_rcp_driver.Stations.State.{Peer, Slot, Mac}
use si91x_rcp_driver.Stations.Notify.{inform_connected, inform_disconnected}
use si91x_rcp_driver.Stations.Keeps.{
  same_trans, connected-SameTable, disconnected-SameTable, load_wep-SameTable,
}
use si91x_rcp_driver.Stations.Table.{
  has_addr, is_free, fresh_slot, put, place, load_wep, add_new, drop_at,
}
use si91x_rcp_driver.Stations.Count.{taken, count, count-update}

-- The table of `m'` is that of `m` with the slot `s` at `i`.
abbrev pub Replaces : (i : ℕ) → Slot → Mac → Mac → Type 0
Replaces i s m m' = (m'.stations ≡ update m.stations i s) × (m'.max_stations ≡ m.max_stations)

update_twice : (st : ℕ → Slot) (i : ℕ) (s t : Slot) → update (update st i s) i t ≡ update st i t
update_twice st i s t =
    fun_ext λ j. elim (Bool-cases (i == j)) [ inl e ↦ rw e refl | inr e ↦ rw e refl ]

module _ (room : ℕ → Bool) where
  pub add_new-Replaces :
      (p : Peer) (i : ℕ) (m : Mac)
      → Replaces i (fresh_slot p i) m (add_new room p i m)
        × ((add_new room p i m).num_stations ≡ m.num_stations + 1)
  unfolding add_new put place
  add_new-Replaces p i m =
      let m₁ : Mac = place p i m in
      let m₂ : Mac = inform_connected room p i m₁ in
      let m₃ : Mac = load_wep room m₂.key i m₂ in
      let k =
        same_trans m₁ m₂ m₃ (connected-SameTable room p i m₁)
          (load_wep-SameTable room m₂.key i m₂) in
      (
        (
          ap (λ st. update st i (fresh_slot p i)) k.0
              ∙ update_twice m.stations i (record (m.stations i) { sta = some p; sta_id = i })
                  (fresh_slot p i),
          k.2,
        ),
        ap (λ n. n + 1) k.1,
      )

  pub drop_at-Replaces :
      (p : Peer) (i : ℕ) (m : Mac)
      → (s : Slot) × (s.sta ≡ none)
        × Replaces i s m (drop_at room p i m)
        × ((drop_at room p i m).num_stations ≡ m.num_stations - 1)
  unfolding drop_at put
  drop_at-Replaces p i m =
      let k = disconnected-SameTable room p i m in
      let m₁ = inform_disconnected room p i m in
      (
        record (m₁.stations i) { sta = none; sta_id = 0xFFFF; seq_no = replicate 4 0 },
        refl,
        (
          ap
              (λ st.
                update st i
                  (record (m₁.stations i) { sta = none; sta_id = 0xFFFF; seq_no = replicate 4 0 }))
              k.0,
          k.2,
        ),
        ap (λ n. n - 1) k.1,
      )

-- The slots below `max_stations` that are taken are counted and know their index, and no address is
-- in two of them.
pub record IsTable (m : Mac) : Type 0 where
  pub counted : m.num_stations ≡ count m.stations m.max_stations
  pub ids :
      (i : ℕ) → i < m.max_stations → is_free (m.stations i).sta ≡ false → (m.stations i).sta_id ≡ i
  pub distinct :
      (addr i j : ℕ)
      → i < m.max_stations
      → j < m.max_stations
      → has_addr addr (m.stations i).sta ≡ true
      → has_addr addr (m.stations j).sta ≡ true
      → i ≡ j

-- No other slot has the address.
abbrev pub Alone : (st : ℕ → Slot) (addr i n : ℕ) → Type 0
Alone st addr i n = (j : ℕ) → j < n → (i == j) ≡ false → has_addr addr (st j).sta ≡ false

module _ (m m' : Mac) (i : ℕ) (s : Slot) (r : Replaces i s m m') (lt : i < m.max_stations) where
  at_other : (j : ℕ) → (i == j) ≡ false → m'.stations j ≡ m.stations j
  at_other j e = ap (λ st. st j) r.0 ∙ rw e refl

  at_self : (j : ℕ) → (i == j) ≡ true → m'.stations j ≡ s
  at_self j e = ap (λ st. st j) r.0 ∙ rw e refl

  -- The count, if it moves with the slot.
  counted_after :
      (n : ℕ)
      → n + taken (m.stations i) ≡ m.num_stations + taken s
      → m.num_stations ≡ count m.stations m.max_stations
      → n ≡ count m'.stations m'.max_stations
  counted_after n moved c =
      rw r.0 (rw r.1 (omega (arith, moved, c, count-update m.stations i s m.max_stations lt)))

  ids_after :
      (is_free s.sta ≡ false → s.sta_id ≡ i)
      → IsTable m
      → (j : ℕ) → j < m'.max_stations
      → is_free (m'.stations j).sta ≡ false
      → (m'.stations j).sta_id ≡ j
  ids_after own t j jlt o = elim (Bool-cases (i == j)) [
    | inl e ↦
        (let same : i ≡ j = ground arith in
          let at = at_self j e in
          ap (λ x. x.sta_id) at ∙ (own (sym (ap (λ x. is_free x.sta) at) ∙ o) ∙ same))
    | inr e ↦
        (let at = at_other j e in
          ap (λ x. x.sta_id) at ∙ t.ids j (rw (sym r.1) jlt) (sym (ap (λ x. is_free x.sta) at) ∙ o))
  ]

  distinct_after :
      ((addr : ℕ) → has_addr addr s.sta ≡ true → Alone m.stations addr i m.max_stations)
      → IsTable m
      → (addr j k : ℕ) → j < m'.max_stations
      → k < m'.max_stations
      → has_addr addr (m'.stations j).sta ≡ true
      → has_addr addr (m'.stations k).sta ≡ true
      → j ≡ k
  distinct_after own t addr j k jlt klt jh kh =
      let jl : j < m.max_stations = rw (sym r.1) jlt in
      let kl : k < m.max_stations = rw (sym r.1) klt in
      elim (Bool-cases (i == j)) [
        | inl ej ↦ elim (Bool-cases (i == k)) [
          | inl ek ↦ ground (arith, ej, ek)
          | inr ek ↦
              (let mine : has_addr addr s.sta ≡ true =
                  ap (λ x. has_addr addr x.sta) (sym (at_self j ej)) ∙ jh in
                let other : has_addr addr (m.stations k).sta ≡ true =
                  ap (λ x. has_addr addr x.sta) (sym (at_other k ek)) ∙ kh in
                cc (own addr mine k kl ek, other))
        ]
        | inr ej ↦
            (let other : has_addr addr (m.stations j).sta ≡ true =
                ap (λ x. has_addr addr x.sta) (sym (at_other j ej)) ∙ jh in
              elim (Bool-cases (i == k)) [
                | inl ek ↦
                    (let mine : has_addr addr s.sta ≡ true =
                        ap (λ x. has_addr addr x.sta) (sym (at_self k ek)) ∙ kh in
                      cc (own addr mine j jl ej, other))
                | inr ek ↦
                    t.distinct addr j k jl kl other
                      (ap (λ x. has_addr addr x.sta) (sym (at_other k ek)) ∙ kh)
              ])
      ]

has_addr-eq : (addr : ℕ) (p : Peer) → has_addr addr (some p) ≡ true → p.addr ≡ addr
unfolding has_addr
has_addr-eq addr p h = ground arith

pub taken_of_has_addr : (addr : ℕ) (o : Option Peer) → has_addr addr o ≡ true → is_free o ≡ false
unfolding has_addr
taken_of_has_addr addr none h = cc
taken_of_has_addr addr (some p) h = refl

-- A station comes to the slot `i`.
pub fresh-IsTable :
    (m m' : Mac) (p : Peer) (i : ℕ)
    → Replaces i (fresh_slot p i) m m'
    → i < m.max_stations
    → m'.num_stations + taken (m.stations i) ≡ m.num_stations + 1
    → Alone m.stations p.addr i m.max_stations
    → IsTable m
    → IsTable m'
unfolding fresh_slot
fresh-IsTable m m' p i r lt moved alone t = record {
  counted = counted_after m m' i (fresh_slot p i) r lt m'.num_stations moved t.counted;
  ids = ids_after m m' i (fresh_slot p i) r lt (λ h. refl) t;
  distinct =
      distinct_after m m' i (fresh_slot p i) r lt
        (λ addr h. let same = has_addr-eq addr p h in rw same at alone) t;
}

-- The station at `i` goes.
pub gone-IsTable :
    (m m' : Mac) (i : ℕ) (s : Slot)
    → Replaces i s m m'
    → s.sta ≡ none
    → i < m.max_stations
    → m'.num_stations + taken (m.stations i) ≡ m.num_stations
    → IsTable m
    → IsTable m'
unfolding has_addr
gone-IsTable m m' i s r e lt moved t = record {
  counted =
      counted_after m m' i s r lt m'.num_stations
        (let free : taken s ≡ 0 = rw e refl in omega (arith, moved, free)) t.counted;
  ids = ids_after m m' i s r lt (λ h. cc (ap is_free e, h)) t;
  distinct = distinct_after m m' i s r lt (λ addr h. cc (ap (has_addr addr) e, h)) t;
}
