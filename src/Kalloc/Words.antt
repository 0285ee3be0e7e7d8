-- ===== src/Kalloc/Words.antt =====
-- The 32-bit words that the kernel keeps in bytes: what is written is what is read.
use dockv6_project.Base.{ℕ, ◌+◌, ◌^◌, ◌≤◌, ◌<◌, ◌≡◌, ◌⊎◌, arith}
use dockv6_project.CString.{View, put_word}
use dockv6_project.Kalloc.{get_word}

pub word_back : (m : View) (a w : ℕ) → w < 2 ^ 32 → get_word (put_word m a w) a ≡ w
word_back m a w h = ground arith

pub word_kept :
    (m : View) (a b w : ℕ) → (a + 4 ≤ b) ⊎ (b + 4 ≤ a) → get_word (put_word m b w) a ≡ get_word m a
word_kept m a b w h = ground arith
