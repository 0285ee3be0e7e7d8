-- ===== src/Fs/Bits.antt =====
-- The bits of the free map of fs.c.
use dockv6_project.Base.{
  ℕ, zero, suc, ◌+◌, ◌-◌, ◌*◌, ◌/◌, ◌%◌, ◌≤◌, ◌≡◌, ◌≢◌, refl, arith, ap, ℕ_discrete,
}
use dockv6_project.CString.{View}
use dockv6_project.Fs.{shift_one, bit_of, bit_at, set_bit, clear_bit}

bit_sets : (i v : ℕ) → bit_of i v ≡ 0 → bit_of i (v + shift_one i) ≡ 1
unfolding bit_of shift_one
bit_sets zero v h = omega arith
bit_sets (suc i) v h =
    let half : (v + 2 * shift_one i) / 2 ≡ v / 2 + shift_one i = omega arith in
    rw half (bit_sets i (v / 2) h)

bit_kept : (i j v : ℕ) → i ≢ j → bit_of i v ≡ 0 → bit_of j (v + shift_one i) ≡ bit_of j v
unfolding bit_of shift_one
bit_kept zero zero v n h = absurd (n refl)
bit_kept zero (suc j) v n h = ap (bit_of j) (omega arith)
bit_kept (suc i) zero v n h = omega arith
bit_kept (suc i) (suc j) v n h =
    let half : (v + 2 * shift_one i) / 2 ≡ v / 2 + shift_one i = omega arith in
    rw half (bit_kept i j (v / 2) (λ e. n (omega arith)) h)

bit_le : (i v : ℕ) → bit_of i v ≢ 0 → shift_one i ≤ v
unfolding bit_of shift_one
bit_le zero v h = omega arith
bit_le (suc i) v h = omega (arith, bit_le i (v / 2) h)

bit_clears : (i v : ℕ) → bit_of i v ≢ 0 → bit_of i (v - shift_one i) ≡ 0
unfolding bit_of shift_one
bit_clears zero v h = omega arith
bit_clears (suc i) v h =
    let half : (v - 2 * shift_one i) / 2 ≡ v / 2 - shift_one i =
      omega (arith, bit_le i (v / 2) h) in
    rw half (bit_clears i (v / 2) h)

bit_unset : (i j v : ℕ) → i ≢ j → bit_of i v ≢ 0 → bit_of j (v - shift_one i) ≡ bit_of j v
unfolding bit_of shift_one
bit_unset zero zero v n h = absurd (n refl)
bit_unset zero (suc j) v n h = ap (bit_of j) (omega arith)
bit_unset (suc i) zero v n h = omega (arith, bit_le i (v / 2) h)
bit_unset (suc i) (suc j) v n h =
    let half : (v - 2 * shift_one i) / 2 ≡ v / 2 - shift_one i =
      omega (arith, bit_le i (v / 2) h) in
    rw half (bit_unset i j (v / 2) (λ e. n (omega arith)) h)

pub set_bit-same : (v : View) (k : ℕ) → bit_at v k ≡ 0 → bit_at (set_bit v k) k ≡ 1
set_bit-same v k h = ground (arith, bit_sets (k % 8) (v (k / 8)) h)

pub set_bit-other :
    (v : View) (k j : ℕ) → bit_at v k ≡ 0 → j ≢ k → bit_at (set_bit v k) j ≡ bit_at v j
set_bit-other v k j h ne = elim (ℕ_discrete (j / 8) (k / 8)) [
  | yes e ↦ ground (arith, bit_kept (k % 8) (j % 8) (v (k / 8)) (λ e'. ne (omega arith)) h)
  | no n ↦ ground (arith)
]

pub clear_bit-same : (v : View) (k : ℕ) → bit_at v k ≢ 0 → bit_at (clear_bit v k) k ≡ 0
clear_bit-same v k h = ground (arith, bit_clears (k % 8) (v (k / 8)) h)

pub clear_bit-other :
    (v : View) (k j : ℕ) → bit_at v k ≢ 0 → j ≢ k → bit_at (clear_bit v k) j ≡ bit_at v j
clear_bit-other v k j h ne = elim (ℕ_discrete (j / 8) (k / 8)) [
  | yes e ↦ ground (arith, bit_unset (k % 8) (j % 8) (v (k / 8)) (λ e'. ne (omega arith)) h)
  | no n ↦ ground (arith)
]
