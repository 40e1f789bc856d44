-- ===== src/Prelude/Threads.antt =====
-- Families indexed by thread: one entry replaced, and the sum of a weight over the first threads.
use Prim.Native.Nat.{ℕ, zero, suc, ◌+◌, ◌≤◌, ◌<◌}
use mathlib.Core.Logic.{◌≢◌, ite}
use mathlib.Core.Path.{◌≡◌, refl}
use native.Mathlib.Decide.{ℕ_discrete}
use native.Mathlib.Omega.{arith}

module _ {ℓ} {A : Type ℓ} where
  abbrev pub replace : (ℕ → A) → ℕ → A → ℕ → A
  replace f i a j = ite (ℕ_discrete j i) a (f j)

  pub sum_over : (A → ℕ) → ℕ → (ℕ → A) → ℕ
  sum_over w zero f = 0
  sum_over w (suc n) f = w (f n) + sum_over w n f

module _ {ℓ} {A : Type ℓ} (w : A → ℕ) where
  sum_over-replace_outside :
      (n : ℕ) (f : ℕ → A) (i : ℕ) (a : A) → n ≤ i → sum_over w n (replace f i a) ≡ sum_over w n f
  unfolding sum_over
  sum_over-replace_outside zero f i a out = refl
  sum_over-replace_outside (suc n) f i a out = ground (arith, sum_over-replace_outside n f i a)

  -- The sum changes by what the replaced entry changes.
  pub sum_over-replace :
      (n : ℕ) (f : ℕ → A) (i : ℕ) (a : A)
      → i < n
      → sum_over w n (replace f i a) + w (f i) ≡ sum_over w n f + w a
  unfolding sum_over
  sum_over-replace zero f i a lt = absurd (omega arith)
  sum_over-replace (suc n) f i a lt = elim (ℕ_discrete n i) [
    | yes here ↦ ground (arith, sum_over-replace_outside n f i a)
    | no other ↦ ground (arith, sum_over-replace n f i a)
  ]

  pub le-sum_over : (n : ℕ) (f : ℕ → A) (i : ℕ) → i < n → w (f i) ≤ sum_over w n f
  unfolding sum_over
  le-sum_over zero f i lt = absurd (omega arith)
  le-sum_over (suc n) f i lt = elim (ℕ_discrete n i) [
    | yes here ↦ ground arith
    | no other ↦ ground (arith, le-sum_over n f i)
  ]

  -- Two threads together weigh no more than all.
  pub le-sum_over_two :
      (n : ℕ) (f : ℕ → A) (i j : ℕ) → i < n → j < n → i ≢ j → w (f i) + w (f j) ≤ sum_over w n f
  unfolding sum_over
  le-sum_over_two zero f i j lt lt' ne = absurd (omega arith)
  le-sum_over_two (suc n) f i j lt lt' ne = elim (ℕ_discrete n i) [
    | yes here ↦ ground (arith, le-sum_over n f j)
    | no other ↦ elim (ℕ_discrete n j) [
      | yes here' ↦ ground (arith, le-sum_over n f i)
      | no other' ↦ ground (arith, le-sum_over_two n f i j)
    ]
  ]

  pub sum_over-le : ((a : A) → w a ≤ 1) → (n : ℕ) (f : ℕ → A) → sum_over w n f ≤ n
  unfolding sum_over
  sum_over-le small zero f = omega arith
  sum_over-le small (suc n) f = omega (arith, small (f n), sum_over-le small n f)

  pub sum_over-zero : (n : ℕ) (a : A) → w a ≡ 0 → sum_over w n (λ _. a) ≡ 0
  unfolding sum_over
  sum_over-zero zero a e = refl
  sum_over-zero (suc n) a e = omega (arith, e, sum_over-zero n a e)

-- Threads that each weigh no more weigh no more together.
module _ {ℓ} {A : Type ℓ} (v w : A → ℕ) (le : (a : A) → v a ≤ w a) where
  pub sum_over_mono : (n : ℕ) (f : ℕ → A) → sum_over v n f ≤ sum_over w n f
  unfolding sum_over
  sum_over_mono zero f = omega arith
  sum_over_mono (suc n) f = omega (arith, sum_over_mono n f, le (f n))
