-- ===== src/Log/Header.antt =====
-- The header block of the log: what `write_head` of log.c writes is what `read_head` reads.
use dockv6_project.Base.{
  refl, ℕ, zero, suc, ◌+◌, ◌*◌, ◌^◌, ◌≤◌, ◌<◌, ◌≡◌, inl, arith, ◌∙◌, ℕ_discrete,
}
use dockv6_project.CString.{View, put_word}
use dockv6_project.Kalloc.{get_word}
use dockv6_project.Kalloc.Words.{word_back, word_kept}
use dockv6_project.Log.{put_entries, head_block, head_n, head_entry}

-- Entries from `i` on do not touch the words in front of them.
word-put_entries :
    (n i : ℕ) (block : ℕ → ℕ) (v : View) (a : ℕ)
    → a ≤ 4 * i
    → get_word (put_entries n i block v) a ≡ get_word v a
unfolding put_entries
word-put_entries zero i block v a l = refl
word-put_entries (suc n) i block v a l =
    word-put_entries n (suc i) block (put_word v (4 * i + 4) (block i)) a (omega arith)
    ∙ word_kept v a (4 * i + 4) (block i) (inl (omega arith))

entry-put_entries :
    (n i : ℕ) (block : ℕ → ℕ) (v : View) (j : ℕ)
    → ((k : ℕ) → k < i + n → block k < 2 ^ 32)
    → i ≤ j
    → j < i + n
    → head_entry (put_entries n i block v) j ≡ block j
unfolding put_entries
entry-put_entries zero i block v j small lo hi = absurd (omega arith)
entry-put_entries (suc n) i block v j small lo hi = elim (ℕ_discrete i j) [
  | yes e ↦ rw (← e) (
      word-put_entries n (suc i) block (put_word v (4 * i + 4) (block i)) (4 * i + 4) (omega arith)
      ∙ word_back v (4 * i + 4) (block i) (small i (omega arith)))
  | no ne ↦
      entry-put_entries n (suc i) block (put_word v (4 * i + 4) (block i)) j
        (λ k l. small k (omega arith)) (omega arith) (omega arith)
]

-- The header that is written holds the number of blocks and each block's number.
pub n-head_block :
    (n : ℕ) (block : ℕ → ℕ) (v : View) → n < 2 ^ 32 → head_n (head_block n block v) ≡ n
unfolding head_block
n-head_block n block v h =
    word-put_entries n 0 block (put_word v 0 n) 0 (omega arith) ∙ word_back v 0 n h

pub entry-head_block :
    (n : ℕ) (block : ℕ → ℕ) (v : View) (j : ℕ)
    → ((k : ℕ) → k < n → block k < 2 ^ 32)
    → j < n
    → head_entry (head_block n block v) j ≡ block j
unfolding head_block
entry-head_block n block v j small l =
    entry-put_entries n 0 block (put_word v 0 n) j (λ k m. small k (omega arith)) (omega arith)
      (omega arith)
