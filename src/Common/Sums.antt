-- ===== src/Common/Sums.antt =====
-- Functions of an index that are assigned to, and sums over the indices below a bound.
use Prim.Native.Nat.{ℕ, zero, suc, ◌+◌, ◌≤◌, ◌<◌}
use mathlib.Core.Path.{◌≡◌, refl, ap}
use mathlib.Core.Logic.{◌≢◌}
use native.Mathlib.Decide.{ℕ_discrete}
use native.Mathlib.Omega.{arith}
use ms_projects.Common.Tests.{ltb, ◌==◌, if◌then◌else◌}

module _ {ℓ} {A : Type ℓ} where
  abbrev pub assign : (ℕ → A) → ℕ → A → ℕ → A
  assign f i v j = if i == j then v else f j

  -- The weights of the values below `n`.
  pub total : (A → ℕ) → ℕ → (ℕ → A) → ℕ
  total w zero f = 0
  total w (suc n) f = total w n f + w (f n)

  total-assign_above :
      (w : A → ℕ) (n : ℕ) (f : ℕ → A) (i : ℕ) (v : A)
      → n ≤ i
      → total w n (assign f i v) ≡ total w n f
  unfolding total
  total-assign_above w zero f i v h = refl
  total-assign_above w (suc n) f i v h = ground (arith, total-assign_above w n f i v)

  pub total-assign :
      (w : A → ℕ) (n : ℕ) (f : ℕ → A) (i : ℕ) (v : A)
      → i < n
      → total w n (assign f i v) + w (f i) ≡ total w n f + w v
  unfolding total
  total-assign w zero f i v h = absurd (omega arith)
  total-assign w (suc n) f i v h = elim (ℕ_discrete i n) [
    | yes last ↦ ground (arith, total-assign_above w n f i v)
    | no other ↦ ground (arith, total-assign w n f i v)
  ]

  pub total_zero : (w : A → ℕ) (n : ℕ) (v : A) → w v ≡ 0 → total w n (λ _. v) ≡ 0
  unfolding total
  total_zero w zero v h = refl
  total_zero w (suc n) v h = omega (arith, total_zero w n v h, h)

  pub total_ge : (w : A → ℕ) (n : ℕ) (f : ℕ → A) (i : ℕ) → i < n → w (f i) ≤ total w n f
  unfolding total
  total_ge w zero f i h = absurd (omega arith)
  total_ge w (suc n) f i h = elim (ℕ_discrete i n) [
    | yes e ↦ omega (arith, ap (λ k. w (f k)) e)
    | no ne ↦ omega (arith, total_ge w n f i (omega (arith, h, ne)))
  ]

  pub total_two :
      (w : A → ℕ) (n : ℕ) (f : ℕ → A) (i j : ℕ)
      → i < n
      → j < n
      → i ≢ j
      → w (f i) + w (f j) ≤ total w n f
  unfolding total
  total_two w zero f i j h k d = absurd (omega arith)
  total_two w (suc n) f i j h k d = elim (ℕ_discrete i n) [
    | yes e ↦ omega (arith, ap (λ x. w (f x)) e, total_ge w n f j (omega (arith, k, d, e)))
    | no ne ↦ elim (ℕ_discrete j n) [
      | yes e ↦ omega (arith, ap (λ x. w (f x)) e, total_ge w n f i (omega (arith, h, ne)))
      | no ne' ↦ omega (arith, total_two w n f i j (omega (arith, h, ne)) (omega (arith, k, ne')) d)
    ]
  ]

  -- One index below the bound counts once.
  pub total_one :
      (w : A → ℕ) (n : ℕ) (f : ℕ → A) (k : ℕ)
      → ((i : ℕ) → w (f i) ≡ (if i == k then 1 else 0))
      → total w n f ≡ (if ltb k n then 1 else 0)
  unfolding total
  total_one w zero f k h = ground arith
  total_one w (suc n) f k h = ground (arith, total_one w n f k h, h n)
