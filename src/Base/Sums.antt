-- ===== src/Base/Sums.antt =====
-- Sums over the entries of a table.
use Prim.Native.Nat.{ℕ, zero, suc, ◌+◌, ◌*◌, ◌≤◌, ◌<◌}
use mathlib.Core.Path.{◌≡◌, refl}
use mathlib.Core.Logic.{◌≢◌}
use native.Mathlib.Omega.{arith}
use native.Mathlib.Decide.{ℕ_discrete}

unfoldable pub sum_below : (ℕ → ℕ) → ℕ → ℕ
sum_below f zero = 0
sum_below f (suc n) = f n + sum_below f n

sum_same : (f g : ℕ → ℕ) (n : ℕ) → ((j : ℕ) → j < n → g j ≡ f j) → sum_below g n ≡ sum_below f n
unfolding sum_below
sum_same f g zero h = refl
sum_same f g (suc n) h = omega (arith, h n (omega arith), sum_same f g n (λ j l. h j (omega arith)))

-- Two tables that differ in one entry.
pub sum_change :
    (f g : ℕ → ℕ) (n i : ℕ)
    → i < n
    → ((j : ℕ) → j ≢ i → g j ≡ f j)
    → sum_below g n + f i ≡ sum_below f n + g i
unfolding sum_below
sum_change f g zero i l h = absurd (omega arith)
sum_change f g (suc n) i l h = elim (ℕ_discrete i n) [
  | yes e ↦ rw e (omega (arith, sum_same f g n (λ j l'. h j (omega arith))))
  | no ne ↦ omega (arith, h n (λ e. ne (omega arith)), sum_change f g n i (omega arith) h)
]

pub sum_bound : (f : ℕ → ℕ) (c n : ℕ) → ((j : ℕ) → f j ≤ c) → sum_below f n ≤ n * c
unfolding sum_below
sum_bound f c zero h = omega arith
sum_bound f c (suc n) h = omega (arith, h n, sum_bound f c n h)

pub sum_entry : (f : ℕ → ℕ) (n i : ℕ) → i < n → f i ≤ sum_below f n
unfolding sum_below
sum_entry f zero i l = absurd (omega arith)
sum_entry f (suc n) i l = elim (ℕ_discrete i n) [
  | yes e ↦ rw e (omega arith)
  | no ne ↦ omega (arith, sum_entry f n i (omega arith))
]
