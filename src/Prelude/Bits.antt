-- ===== src/Prelude/Bits.antt =====
-- The disjunction of two numbers, bit by bit, where they have no bit in common.
use Prim.Native.Nat.{
  ℕ, zero, suc, ◌+◌, ◌*◌, ◌/◌, ◌%◌, ◌≤◌, ◌<◌, max, bit_or, digits, bit_or-bitwise,
}
use mathlib.Core.Path.{◌≡◌, refl, ◌∙◌}
use native.Mathlib.Omega.{arith}

-- The law for the lowest digit, from the definition that the native operation stands for.
abbrev or_digits : ℕ → ℕ → ℕ → ℕ
or_digits n a b = digits (λ b. b) max n a b

or_digits_fuel : (n m a b : ℕ) → a ≤ n → a ≤ m → or_digits n a b ≡ or_digits m a b
or_digits_fuel zero zero a b p q = refl
or_digits_fuel zero (suc m) zero b p q = refl
or_digits_fuel zero (suc m) (suc a) b p q = absurd (omega arith)
or_digits_fuel (suc n) zero zero b p q = refl
or_digits_fuel (suc n) zero (suc a) b p q = absurd (omega arith)
or_digits_fuel (suc n) (suc m) zero b p q = refl
or_digits_fuel (suc n) (suc m) (suc a) b p q =
    omega (arith, or_digits_fuel n m (suc a / 2) (b / 2) (omega arith) (omega arith))

zero-bit_or : (b : ℕ) → bit_or 0 b ≡ b
zero-bit_or b = bit_or-bitwise 0 b

bit_or_step :
    (a b : ℕ) → bit_or (suc a) b ≡ bit_or (suc a / 2) (b / 2) * 2 + max (suc a % 2) (b % 2)
bit_or_step a b = omega (
  arith,
  bit_or-bitwise (suc a) b,
  bit_or-bitwise (suc a / 2) (b / 2),
  or_digits_fuel a (suc a / 2) (suc a / 2) (b / 2) (omega arith) (omega arith),
)

max-zero : (n : ℕ) → max n 0 ≡ n
max-zero n = omega arith

-- `n * 2 ^ k`, computed by doubling.
abbrev pub shl : ℕ → ℕ → ℕ
shl zero n = n
shl (suc k) n = 2 * shl k n

pub bit_or-shl : (k a n : ℕ) → a < shl k 1 → bit_or a (shl k n) ≡ a + shl k n
bit_or-shl zero zero n lt = omega (arith, zero-bit_or n)
bit_or-shl zero (suc a) n lt = absurd (omega arith)
bit_or-shl (suc k) zero n lt = omega (arith, zero-bit_or (2 * shl k n))
bit_or-shl (suc k) (suc a) n lt =
    let half : (2 * shl k n) / 2 ≡ shl k n = omega arith in
    let even : (2 * shl k n) % 2 ≡ 0 = omega arith in
    let step = bit_or_step a (2 * shl k n) in
    let rec = bit_or-shl k (suc a / 2) n (omega arith) in
    step ∙ (rw half (rw even (rw (max-zero (suc a % 2)) (omega (arith, rec)))))
