-- ===== src/CString/Move.antt =====
-- `memmove` of string.c copies as if through a second buffer, also where its ranges overlap.
use dockv6_project.Base.{
  ℕ, zero, suc, ◌+◌, ◌≤◌, ◌<◌, ◌≡◌, ◌⊎◌, inl, inr, refl, arith, Bool-cases, ltb, update, ◌&&◌,
  ℕ_discrete,
}
use dockv6_project.CString.{Memory, copy_down, copy_up, memmove}

-- The memory after a copy: the range at `d` holds what the range at `s` held, the rest is as before.
pub record Copied (m m' : Memory) (d s n : ℕ) : Type 0 where
  pub copied : (i : ℕ) → i < n → m' (d + i) ≡ m (s + i)
  pub kept : (a : ℕ) → (a < d) ⊎ (d + n ≤ a) → m' a ≡ m a

copy_down-kept : (m : Memory) (d s n a : ℕ) → (a < d) ⊎ (d + n ≤ a) → copy_down m d s n a ≡ m a
unfolding copy_down
copy_down-kept m d s zero a h = refl
copy_down-kept m d s (suc n) a h =
    ground (arith, copy_down-kept (update m (d + n) (m (s + n))) d s n a)

copy_down-copied :
    (m : Memory) (d s n i : ℕ) → s ≤ d → i < n → copy_down m d s n (d + i) ≡ m (s + i)
unfolding copy_down
copy_down-copied m d s zero i b h = absurd (omega arith)
copy_down-copied m d s (suc n) i b h = elim (ℕ_discrete i n) [
  | yes e ↦ ground (arith, copy_down-kept (update m (d + n) (m (s + n))) d s n (d + i))
  | no ne ↦ ground (arith, copy_down-copied (update m (d + n) (m (s + n))) d s n i b)
]

copy_up-kept : (m : Memory) (d s n a : ℕ) → (a < d) ⊎ (d + n ≤ a) → copy_up m d s n a ≡ m a
unfolding copy_up
copy_up-kept m d s zero a h = refl
copy_up-kept m d s (suc n) a h = ground (arith, copy_up-kept (update m d (m s)) (d + 1) (s + 1) n a)

copy_up-copied :
    (m : Memory) (d s n i : ℕ) → (d ≤ s) ⊎ (s + n ≤ d) → i < n → copy_up m d s n (d + i) ≡ m (s + i)
unfolding copy_up
copy_up-copied m d s zero i b h = absurd (omega arith)
copy_up-copied m d s (suc n) zero b h =
    ground (arith, copy_up-kept (update m d (m s)) (d + 1) (s + 1) n (d + 0))
copy_up-copied m d s (suc n) (suc i) b h =
    ground (arith, copy_up-copied (update m d (m s)) (d + 1) (s + 1) n i)

-- `memmove(d, s, n)` copies the `n` bytes at `s` as they were before the call to `d`, however the
-- two ranges overlap, and changes no byte outside the range at `d`.
pub memmove-Copied : (m : Memory) (d s n : ℕ) → Copied m (memmove m d s n) d s n
unfolding memmove
memmove-Copied m d s n = elim (Bool-cases (ltb s d && ltb d (s + n))) [
  | inl down ↦ rw down (record {
    copied = λ i h. copy_down-copied m d s n i (ground arith) h;
    kept = λ a h. copy_down-kept m d s n a h;
  })
  | inr up ↦ rw up (record {
    copied = λ i h. copy_up-copied m d s n i (ground arith) h;
    kept = λ a h. copy_up-kept m d s n a h;
  })
]
