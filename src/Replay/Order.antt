-- ===== src/Replay/Order.antt =====
-- `memcmp` on packet numbers, against their order as 48-bit numbers.
use si91x_rcp_driver.Prelude.{
  ℕ, ◌+◌, ◌*◌, ◌^◌, ◌≤◌, ◌<◌, ◌≡◌, refl, ap, dec_lt, ◌⊎◌, inl, Bool, true, false, arith,
}
use si91x_rcp_driver.Replay.{Pn, byte_le, pn_le}

pub record IsBytes (a : Pn) : Type 0 where
  pub b0 : a.b0 < 256
  pub b1 : a.b1 < 256
  pub b2 : a.b2 < 256
  pub b3 : a.b3 < 256
  pub b4 : a.b4 < 256
  pub b5 : a.b5 < 256

-- The number that the bytes stand for.
abbrev pub value : Pn → ℕ
value a =
    a.b0 * 2 ^ 40
    + (a.b1 * 2 ^ 32 + (a.b2 * 2 ^ 24 + (a.b3 * 2 ^ 16 + (a.b4 * 2 ^ 8 + (a.b5 * 1 + 0)))))

abbrev Ordered : Bool → ℕ → ℕ → Type 0
Ordered r m n = ((r ≡ true) × (m ≤ n)) ⊎ ((r ≡ false) × (n < m))

mul_gap : (x y base : ℕ) → x < y → x * base + base ≤ y * base
mul_gap x y base h = grind arith

byte_le-Ordered :
    (base x y m n : ℕ) (r : Bool)
    → m < base
    → n < base
    → Ordered r m n
    → Ordered (byte_le x y r) (x * base + m) (y * base + n)
unfolding byte_le
byte_le-Ordered base x y m n r hm hn o = elim (dec_lt x y) [
  | yes lt ↦ ground (arith, mul_gap x y base lt)
  | no ge ↦ elim (dec_lt y x) [
    | yes lt ↦ ground (arith, mul_gap y x base lt)
    | no ge' ↦ let e : x ≡ y = omega arith in ground (arith, ap (λ (t : ℕ). t * base) e)
  ]
]

pub pn_le-value :
    (a b : Pn)
    → IsBytes a
    → IsBytes b
    → ((pn_le a b ≡ true) × (value a ≤ value b)) ⊎ ((pn_le a b ≡ false) × (value b < value a))
unfolding pn_le
pn_le-value a b ha hb = byte_le-Ordered (2 ^ 40) a.b0 b.b0 _ _ _ (omega arith) (omega arith) (
    byte_le-Ordered (2 ^ 32) a.b1 b.b1 _ _ _ (omega arith) (omega arith) (
      byte_le-Ordered (2 ^ 24) a.b2 b.b2 _ _ _ (omega arith) (omega arith) (
        byte_le-Ordered (2 ^ 16) a.b3 b.b3 _ _ _ (omega arith) (omega arith) (
          byte_le-Ordered (2 ^ 8) a.b4 b.b4 _ _ _ (omega arith) (omega arith) (
            byte_le-Ordered 1 a.b5 b.b5 0 0 true (omega arith) (omega arith)
              (inl (refl, omega arith)))))))

pub pn_le_refl : (a : Pn) → pn_le a a ≡ true
unfolding pn_le byte_le
pn_le_refl a = ground arith
