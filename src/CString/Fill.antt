-- ===== src/CString/Fill.antt =====
-- `memset` of string.c: the loop on words and the loop on bytes do the same.
use dockv6_project.Base.{
  ℕ, zero, suc, ◌+◌, ◌*◌, ◌/◌, ◌%◌, ◌≤◌, ◌<◌, ◌≡◌, ◌⊎◌, inl, inr, refl, arith, Bool-cases, update,
  ◌&&◌, ◌==◌,
}
use dockv6_project.CString.{Memory, stosb, stosl, memset, put_word}

-- The memory after `n` bytes from `d` on are set to `b`.
pub record Filled (m m' : Memory) (d b n : ℕ) : Type 0 where
  pub filled : (a : ℕ) → d ≤ a → a < d + n → m' a ≡ b
  pub kept : (a : ℕ) → (a < d) ⊎ (d + n ≤ a) → m' a ≡ m a

abbrev word_of : ℕ → ℕ
word_of b = b * 16777216 + b * 65536 + b * 256 + b

stosb-kept : (m : Memory) (d c n a : ℕ) → (a < d) ⊎ (d + n ≤ a) → stosb m d c n a ≡ m a
unfolding stosb
stosb-kept m d c zero a h = refl
stosb-kept m d c (suc n) a h = ground (arith, stosb-kept (update m d (c % 256)) (d + 1) c n a)

stosb-filled : (m : Memory) (d c n a : ℕ) → d ≤ a → a < d + n → stosb m d c n a ≡ c % 256
unfolding stosb
stosb-filled m d c zero a h l = absurd (omega arith)
stosb-filled m d c (suc n) a h l = ground (
  arith,
  stosb-kept (update m d (c % 256)) (d + 1) c n a,
  stosb-filled (update m d (c % 256)) (d + 1) c n a,
)

word_bytes :
    (b : ℕ)
    → b < 256
    → (word_of b % 256 ≡ b)
      × (word_of b / 256 % 256 ≡ b)
      × (word_of b / 65536 % 256 ≡ b)
      × (word_of b / 16777216 % 256 ≡ b)
word_bytes b h = omega arith

stosl-kept : (m : Memory) (d w n a : ℕ) → (a < d) ⊎ (d + 4 * n ≤ a) → stosl m d w n a ≡ m a
unfolding stosl
stosl-kept m d w zero a h = refl
stosl-kept m d w (suc n) a h = ground (arith, stosl-kept (put_word m d w) (d + 4) w n a)

stosl-filled :
    (m : Memory) (d b n a : ℕ) → b < 256 → d ≤ a → a < d + 4 * n → stosl m d (word_of b) n a ≡ b
unfolding stosl
stosl-filled m d b zero a lb h l = absurd (omega arith)
stosl-filled m d b (suc n) a lb h l = ground (
  arith,
  word_bytes b lb,
  stosl-kept (put_word m d (word_of b)) (d + 4) (word_of b) n a,
  stosl-filled (put_word m d (word_of b)) (d + 4) b n a,
)

-- `memset(d, c, n)` sets each of the `n` bytes at `d` to the low byte of `c`, by whichever loop it
-- takes, and changes no other byte.
pub memset-Filled : (m : Memory) (d c n : ℕ) → Filled m (memset m d c n) d (c % 256) n
unfolding memset
memset-Filled m d c n = elim (Bool-cases ((d % 4 == 0) && (n % 4 == 0))) [
  | inl words ↦
      let whole : 4 * (n / 4) ≡ n = ground arith in
      rw words (record {
        filled = λ a h l. stosl-filled m d (c % 256) (n / 4) a (omega arith) h (omega arith);
        kept = λ a h. stosl-kept m d (word_of (c % 256)) (n / 4) a (omega arith);
      })
  | inr single ↦ rw single (record {
    filled = λ a h l. stosb-filled m d c n a h l;
    kept = λ a h. stosb-kept m d c n a h;
  })
]
