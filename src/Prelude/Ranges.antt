-- ===== src/Prelude/Ranges.antt =====
-- Tests of all numbers below a bound, and of both truth values.
use Prim.Native.Nat.{ℕ, zero, suc, ◌<◌}
use mathlib.Core.Path.{◌≡◌, refl, sym, ap, ◌∙◌}
use mathlib.Core.Logic.{inl, inr}
use mathlib.Core.Bool.{Bool, true, false}
use native.Mathlib.Omega.{arith}
use si91x_rcp_driver.Prelude.Tests.{◌==◌, if◌then◌else◌, Bool-cases}

-- The test holds of every number from 0 up to `count - 1`.
unfoldable pub each_passes : (test : ℕ → Bool) → (count : ℕ) → Bool
each_passes test zero = true
each_passes test (suc m) = if test m then each_passes test m else false

pub each_passes_at :
    (test : ℕ → Bool) (count i : ℕ) → i < count → each_passes test count ≡ true → test i ≡ true
unfolding each_passes
each_passes_at test zero i inside all = absurd (omega arith)
each_passes_at test (suc m) i inside all = elim (Bool-cases (test m)) [
  | inr fails ↦ cc (fails, all)
  | inl holds ↦ elim (Bool-cases (m == i)) [
    | inl same ↦ (let eq : m ≡ i = ground arith in ap test (sym eq) ∙ holds)
    | inr other ↦
        each_passes_at test m i (ground arith)
          (sym (ap (λ b. if b then each_passes test m else false) holds) ∙ all)
  ]
]

-- The test holds of both truth values.
abbrev pub both_pass : (test : Bool → Bool) → Bool
both_pass test = if test true then test false else false

pub both_pass_at : (test : Bool → Bool) (b : Bool) → both_pass test ≡ true → test b ≡ true
both_pass_at test b h = pick (test true) (test false) refl refl h b
  where
    pick :
        (x y : Bool)
        → test true ≡ x
        → test false ≡ y
        → (if x then y else false) ≡ true
        → (b : Bool) → test b ≡ true
    pick true y e₁ e₂ h true = e₁
    pick true y e₁ e₂ h false = e₂ ∙ h
    pick false y e₁ e₂ h b = cc
