-- ===== src/Common/Family.antt =====
-- Families indexed by numbers: a change at one index, and the sum of a weight over the first members.
use Prim.Native.Nat.{ℕ, zero, suc, ◌+◌, ◌*◌, ◌≤◌, ◌<◌}
use mathlib.Core.Path.{◌≡◌, refl}
use mathlib.Core.Logic.{◌≢◌, inl, inr}
use native.Mathlib.Omega.{arith}
use wire_command_c.Common.Tests.{◌==◌, if◌then◌else◌, Bool-cases}

module _ {ℓ} {A : Type ℓ} where
  abbrev pub update : (ℕ → A) → ℕ → A → ℕ → A
  update f i a j = if j == i then a else f j

  pub update-same : (f : ℕ → A) (i : ℕ) (a : A) → update f i a i ≡ a
  update-same f i a = ground arith

  pub update-other : (f : ℕ → A) (i : ℕ) (a : A) (j : ℕ) → j ≢ i → update f i a j ≡ f j
  update-other f i a j ne = ground arith

  module _ (weight : A → ℕ) where
    pub sum : ℕ → (ℕ → A) → ℕ
    sum zero f = 0
    sum (suc n) f = weight (f n) + sum n f

    sum-above : (n : ℕ) (f : ℕ → A) (i : ℕ) (a : A) → n ≤ i → sum n (update f i a) ≡ sum n f
    unfolding sum
    sum-above zero f i a h = refl
    sum-above (suc n) f i a h = ground (arith, sum-above n f i a)

    -- A member that weighs less makes the sum less.
    pub sum-update_lt :
        (n : ℕ) (f : ℕ → A) (i : ℕ) (a : A)
        → i < n
        → weight a < weight (f i)
        → sum n (update f i a) < sum n f
    unfolding sum
    sum-update_lt zero f i a h l = absurd (omega arith)
    sum-update_lt (suc n) f i a h l = elim (Bool-cases (n == i)) [
      | inl e ↦ ground (arith, e, sum-above n f i a)
      | inr e ↦ ground (arith, e, sum-update_lt n f i a)
    ]

    pub sum-update_le :
        (n : ℕ) (f : ℕ → A) (i : ℕ) (a : A)
        → weight a ≤ weight (f i)
        → sum n (update f i a) ≤ sum n f
    unfolding sum
    sum-update_le zero f i a l = omega arith
    sum-update_le (suc n) f i a l = ground (arith, sum-update_le n f i a)

    pub sum-le :
        (bound : ℕ) → ((a : A) → weight a ≤ bound) → (n : ℕ) (f : ℕ → A) → sum n f ≤ n * bound
    unfolding sum
    sum-le bound small zero f = omega arith
    sum-le bound small (suc n) f = ground (arith, small (f n), sum-le bound small n f)
