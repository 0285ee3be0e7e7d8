-- ===== src/CString/Copy.antt =====
-- What `strncpy` and `safestrcpy` of string.c leave in the buffer.
use dockv6_project.Base.{
  ℕ, zero, suc, ◌≤◌, ◌<◌, ◌≡◌, refl, arith, ◌==◌, Bool-cases, inl, inr, ==_iff,
}
use dockv6_project.CString.{View, next, fill_nul, strncpy, safe_loop, safestrcpy}
use dockv6_project.CString.Compare.{NoNul, NoNul-next}

fill_nul-low : (s : View) (n i : ℕ) → i < n → fill_nul s n i ≡ 0
unfolding fill_nul
fill_nul-low s zero i h = absurd (omega arith)
fill_nul-low s (suc n) zero h = refl
fill_nul-low s (suc n) (suc i) h = fill_nul-low (next s) n i (omega arith)

fill_nul-high : (s : View) (n i : ℕ) → n ≤ i → fill_nul s n i ≡ s i
unfolding fill_nul
fill_nul-high s zero i h = refl
fill_nul-high s (suc n) zero h = absurd (omega arith)
fill_nul-high s (suc n) (suc i) h = fill_nul-high (next s) n i (omega arith)

-- What the buffer at `s` holds after `strncpy(s, t, n)`.
pub record Strncpy (s t : View) (n : ℕ) (r : View) : Type 0 where
  pub copied : (i : ℕ) → i < n → NoNul t i → r i ≡ t i
  pub padded : (i k : ℕ) → i < n → k < i → t k ≡ 0 → r i ≡ 0
  pub kept : (i : ℕ) → n ≤ i → r i ≡ s i

copied_at : (s t : View) (n i : ℕ) → i < n → NoNul t i → strncpy s t n i ≡ t i
unfolding strncpy
copied_at s t zero i h clear = absurd (omega arith)
copied_at s t (suc n) zero h clear = refl
copied_at s t (suc n) (suc i) h clear = ground (
  arith,
  clear 0 (omega arith),
  copied_at (next s) (next t) n i (omega arith) (NoNul-next t i clear),
)

padded_at : (s t : View) (n i k : ℕ) → i < n → k < i → t k ≡ 0 → strncpy s t n i ≡ 0
unfolding strncpy
padded_at s t zero i k h l nul = absurd (omega arith)
padded_at s t (suc n) zero k h l nul = absurd (omega arith)
padded_at s t (suc n) (suc i) zero h l nul = ground (arith, fill_nul-low (next s) n i (omega arith))
padded_at s t (suc n) (suc i) (suc k) h l nul = ground (
  arith,
  fill_nul-low (next s) n i (omega arith),
  padded_at (next s) (next t) n i k (omega arith) (omega arith) nul,
)

kept_at : (s t : View) (n i : ℕ) → n ≤ i → strncpy s t n i ≡ s i
unfolding strncpy
kept_at s t zero i h = refl
kept_at s t (suc n) zero h = absurd (omega arith)
kept_at s t (suc n) (suc i) h =
    ground
      (arith, fill_nul-high (next s) n i (omega arith), kept_at (next s) (next t) n i (omega arith))

-- `strncpy(s, t, n)` copies `t` up to and with its first NUL, pads with NULs up to `n` bytes, and
-- leaves the bytes from `n` on as they were; it adds no NUL where `t` has none in `n` bytes.
pub strncpy-Strncpy : (s t : View) (n : ℕ) → Strncpy s t n (strncpy s t n)
strncpy-Strncpy s t n = record {
  copied = λ i h clear. copied_at s t n i h clear;
  padded = λ i k h l nul. padded_at s t n i k h l nul;
  kept = λ i h. kept_at s t n i h;
}

-- What the buffer at `s` holds after `safestrcpy(s, t, n)`, for `n` above 0: the bytes of `t` up to
-- its first NUL or `n - 1` of them, then a NUL; the bytes from `n` on are as they were.
pub record Safestrcpy (s t : View) (n : ℕ) (r : View) : Type 0 where
  pub copied : (i : ℕ) → suc i < n → NoNul t i → r i ≡ t i
  pub ended : (k : ℕ) × (k < n) × (r k ≡ 0)
  pub kept : (i : ℕ) → n ≤ i → r i ≡ s i

safe-copied : (s t : View) (n i : ℕ) → i < n → NoNul t i → safe_loop s t n i ≡ t i
unfolding safe_loop
safe-copied s t zero i h clear = absurd (omega arith)
safe-copied s t (suc n) zero h clear = refl
safe-copied s t (suc n) (suc i) h clear = ground (
  arith,
  clear 0 (omega arith),
  safe-copied (next s) (next t) n i (omega arith) (NoNul-next t i clear),
)

safe-ended : (s t : View) (n : ℕ) → (k : ℕ) × (k < suc n) × (safe_loop s t n k ≡ 0)
unfolding safe_loop
safe-ended s t zero = (0, omega arith, refl)
safe-ended s t (suc n) = elim (Bool-cases (t 0 == 0)) [
  | inl e ↦ (0, omega arith, (==_iff _ _).0 e)
  | inr e ↦ let (k, l, z) = safe-ended (next s) (next t) n in (suc k, omega arith, rw e z)
]

safe-kept : (s t : View) (n i : ℕ) → n < i → safe_loop s t n i ≡ s i
unfolding safe_loop
safe-kept s t zero zero h = absurd (omega arith)
safe-kept s t zero (suc i) h = refl
safe-kept s t (suc n) zero h = absurd (omega arith)
safe-kept s t (suc n) (suc zero) h = absurd (omega arith)
safe-kept s t (suc n) (suc (suc i)) h = elim (Bool-cases (t 0 == 0)) [
  | inl e ↦ rw e
  | inr e ↦ rw e (safe-kept (next s) (next t) n (suc i) (omega arith))
]

-- `safestrcpy(s, t, n)` with `n` above 0 copies the bytes of `t` up to its first NUL, or `n - 1` of
-- them, has a NUL among the `n` bytes of the buffer, whatever `t` holds, and writes nothing from byte
-- `n` on.
pub safestrcpy-Safestrcpy : (s t : View) (n : ℕ) → Safestrcpy s t (suc n) (safestrcpy s t (suc n))
unfolding safestrcpy
safestrcpy-Safestrcpy s t n = record {
  copied = λ i h clear. safe-copied s t n i (omega arith) clear;
  ended = safe-ended s t n;
  kept = λ i h. safe-kept s t n i (omega arith);
}
