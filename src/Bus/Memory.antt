-- ===== src/Bus/Memory.antt =====
-- Memory of the device as a function of the address, and a block of bytes written to it.
use si91x_rcp_driver.Prelude.{
  ℕ, zero, suc, ◌+◌, ◌≤◌, ◌<◌, ◌≡◌, ◌⊎◌, inl, inr, refl, ap, ◌∙◌, List, [], ◌∷◌, ◌++◌, length, take,
  get_or, arith, update,
}

abbrev pub Mem : Type 0
Mem = ℕ → ℕ

unfoldable pub write_at : ℕ → List ℕ → Mem → Mem
write_at a [] m = m
write_at a (x ∷ xs) m = write_at (a + 1) xs (update m a x)

-- Two blocks that follow one another are one.
pub write_at-append :
    (xs ys : List ℕ) (a : ℕ) (m : Mem)
    → write_at a (xs ++ ys) m ≡ write_at (a + length xs) ys (write_at a xs m)
unfolding write_at
write_at-append [] ys a m = let same : a ≡ a + 0 = omega arith in ap (λ c. write_at c ys m) same
write_at-append (x ∷ xs) ys a m =
    let moved : a + 1 + length xs ≡ a + length (x ∷ xs) = omega arith in
    rw (write_at-append xs ys (a + 1) (update m a x)) (rw moved)

-- What stands outside the block stays.
pub write_at_outside :
    (xs : List ℕ) (a j : ℕ) (m : Mem) → (j < a) ⊎ (a + length xs ≤ j) → write_at a xs m j ≡ m j
unfolding write_at
write_at_outside [] a j m out = refl
write_at_outside (x ∷ xs) a j m out = elim out [
  | inl lt ↦ ground (arith, write_at_outside xs (a + 1) j (update m a x) (inl (omega arith)))
  | inr le ↦ ground (arith, write_at_outside xs (a + 1) j (update m a x) (inr (omega arith)))
]

-- What stands inside is the block.
pub write_at_inside :
    (xs : List ℕ) (a i : ℕ) (m : Mem) → i < length xs → write_at a xs m (a + i) ≡ get_or xs i 0
unfolding write_at
write_at_inside [] a i m lt = elim lt [ ]
write_at_inside (x ∷ xs) a zero m lt =
    ground (arith, write_at_outside xs (a + 1) (a + 0) (update m a x) (inl (omega arith)))
write_at_inside (x ∷ xs) a (suc i) m lt =
    let moved : a + suc i ≡ a + 1 + i = omega arith in
    rw moved (write_at_inside xs (a + 1) i (update m a x) (omega arith))

-- The memory `m'` has the bytes from `base` on, and is otherwise `m`.
abbrev pub HasImage : ℕ → List ℕ → Mem → Mem → Type 0
HasImage base bytes m m' =
    ((i : ℕ) → i < length bytes → m' (base + i) ≡ get_or bytes i 0)
    × ((j : ℕ) → (j < base) ⊎ (base + length bytes ≤ j) → m' j ≡ m j)

pub write_at-HasImage :
    (base : ℕ) (bytes : List ℕ) (m m' : Mem) → m' ≡ write_at base bytes m → HasImage base bytes m m'
write_at-HasImage base bytes m m' e = (
  λ i lt. ap (λ f. f (base + i)) e ∙ write_at_inside bytes base i m lt,
  λ j out. ap (λ f. f j) e ∙ write_at_outside bytes base j m out,
)

pub take-take : (n k : ℕ) (xs : List ℕ) → n ≤ k → take n (take k xs) ≡ take n xs
take-take zero k xs le = refl
take-take (suc n) zero xs le = absurd (omega arith)
take-take (suc n) (suc k) [] le = refl
take-take (suc n) (suc k) (x ∷ xs) le = ap (λ r. x ∷ r) (take-take n k xs (omega arith))

pub take_all : (n : ℕ) (xs : List ℕ) → length xs ≤ n → take n xs ≡ xs
take_all zero [] le = refl
take_all zero (x ∷ xs) le = absurd (omega arith)
take_all (suc n) [] le = refl
take_all (suc n) (x ∷ xs) le = ap (λ r. x ∷ r) (take_all n xs (omega arith))

pub nil_of_length : (xs : List ℕ) → length xs ≡ 0 → xs ≡ []
nil_of_length [] e = refl
nil_of_length (x ∷ xs) e = absurd (omega arith)
