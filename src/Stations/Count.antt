-- ===== src/Stations/Count.antt =====
-- How many slots of the station table are taken.
use si91x_rcp_driver.Prelude.{
  ℕ, zero, suc, ◌+◌, ◌≤◌, ◌<◌, ◌≡◌, inl, inr, refl, sym, ap, ◌∙◌, false, ◌==◌, if◌then◌else◌, arith,
  Bool-cases, update,
}
use si91x_rcp_driver.Stations.State.{Slot}
use si91x_rcp_driver.Stations.Table.{is_free}
use si91x_rcp_driver.Stations.Scan.{Taken}

abbrev pub taken : Slot → ℕ
taken s = if is_free s.sta then 0 else 1

unfoldable pub count : (ℕ → Slot) → ℕ → ℕ
count st zero = 0
count st (suc n) = count st n + taken (st n)

pub count-le : (st : ℕ → Slot) (n : ℕ) → count st n ≤ n
unfolding count
count-le st zero = omega arith
count-le st (suc n) = ground (arith, count-le st n)

pub count-update_outside :
    (st : ℕ → Slot) (i : ℕ) (s : Slot) (n : ℕ) → n ≤ i → count (update st i s) n ≡ count st n
unfolding count
count-update_outside st i s zero le = refl
count-update_outside st i s (suc n) le =
    let other : (i == n) ≡ false = ground arith in
    let rec = count-update_outside st i s n (omega arith) in rw other (rw rec refl)

pub count-update :
    (st : ℕ → Slot) (i : ℕ) (s : Slot) (n : ℕ)
    → i < n
    → count (update st i s) n + taken (st i) ≡ count st n + taken s
unfolding count
count-update st i s zero lt = absurd (omega arith)
count-update st i s (suc n) lt = elim (Bool-cases (i == n)) [
  | inl e ↦
      (let same : n ≡ i = ground arith in
        let rec = count-update_outside st i s n (ground arith) in
        rw e (rw rec (rw same (omega arith))))
  | inr e ↦ (let rec = count-update st i s n (ground arith) in rw e (omega (arith, rec)))
]

pub count_all : (st : ℕ → Slot) (n : ℕ) → Taken st 0 n → count st n ≡ n
unfolding count
count_all st zero all = refl
count_all st (suc n) all =
    let last = all n (omega arith) (omega arith) in
    rw last (omega (arith, count_all st n (λ j le lt. all j le (omega arith))))

pub count_pos : (st : ℕ → Slot) (i n : ℕ) → i < n → is_free (st i).sta ≡ false → 0 < count st n
unfolding count
count_pos st i zero lt o = absurd (omega arith)
count_pos st i (suc n) lt o = elim (Bool-cases (i == n)) [
  | inl e ↦
      (let same : i ≡ n = ground arith in
        let last : is_free (st n).sta ≡ false = ap (λ k. is_free (st k).sta) (sym same) ∙ o in
        rw last (omega arith))
  | inr e ↦ (let rec = count_pos st i n (ground arith) o in omega (arith, rec))
]
