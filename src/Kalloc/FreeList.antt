-- ===== src/Kalloc/FreeList.antt =====
-- The list of free pages behind `kmem`, and what `kfree` and `kalloc` of kalloc.c do to it.
use dockv6_project.Base.{
  subst, sym, ◌==◌, false, ℕ, ◌+◌, ◌%◌, ◌^◌, ◌≤◌, ◌<◌, ◌≡◌, ◌≢◌, ◌⊎◌, refl, arith, List, [], ◌∷◌,
}
use dockv6_project.CString.{Memory, put_word, memset}
use dockv6_project.CString.Fill.{memset-Filled}
use dockv6_project.Kalloc.Words.{word_back}
use dockv6_project.Kalloc.{Kmem, done, pgsize, phystop, kernbase, get_word, kfree, kalloc}

abbrev pub All {ℓ} : (ℕ → Type ℓ) → List ℕ → Type ℓ
All P [] = Unit
All P (x ∷ xs) = P x × All P xs

-- What `kfree` accepts: a page of the mapped memory above the kernel.
pub record IsPage (kernel_end v : ℕ) : Type 0 where
  pub aligned : v % pgsize ≡ 0
  pub above : kernel_end ≤ v
  pub mapped : kernbase ≤ v
  pub below : v < kernbase + phystop

-- From the pointer `h` on, the links lead through just the pages of the list, each once.
abbrev pub Links : ℕ → Memory → ℕ → List ℕ → Type 0
Links kernel_end m h [] = h ≡ 0
Links kernel_end m h (x ∷ xs) =
    (h ≡ x) × IsPage kernel_end x × All (λ y. y ≢ x) xs × Links kernel_end m (get_word m x) xs

abbrev pub Holds : ℕ → Kmem → List ℕ → Type 0
Holds kernel_end k xs = Links kernel_end k.memory k.freelist xs

freed_elsewhere :
    (m : Memory) (v w a : ℕ)
    → (a < v) ⊎ (v + pgsize ≤ a)
    → put_word (memset m v 1 pgsize) v w a ≡ m a
freed_elsewhere m v w a h = ground (arith, (memset-Filled m v 1 pgsize).kept a h)

word_elsewhere :
    (e : ℕ) (m : Memory) (v w x : ℕ)
    → v % pgsize ≡ 0
    → IsPage e x
    → x ≢ v
    → get_word (put_word (memset m v 1 pgsize) v w) x ≡ get_word m x
word_elsewhere e m v w x al page ne =
    let b0 = freed_elsewhere m v w x (omega arith) in
    let b1 = freed_elsewhere m v w (x + 1) (omega arith) in
    let b2 = freed_elsewhere m v w (x + 2) (omega arith) in
    let b3 = freed_elsewhere m v w (x + 3) (omega arith) in rw (b0, b1, b2, b3)

Links-freed :
    (e : ℕ) (m : Memory) (v w h : ℕ) (xs : List ℕ)
    → v % pgsize ≡ 0
    → All (λ y. y ≢ v) xs
    → Links e m h xs
    → Links e (put_word (memset m v 1 pgsize) v w) h xs
Links-freed e m v w h [] al out l = l
Links-freed e m v w h (x ∷ xs) al out l =
    let same = word_elsewhere e m v w x al l.1 out.0 in
    (l.0, l.1, l.2, rw same (Links-freed e m v w (get_word m x) xs al out.1 l.3))

Links-lt : (e : ℕ) (m : Memory) (h : ℕ) (xs : List ℕ) → Links e m h xs → h < 2 ^ 32
Links-lt e m h [] l = omega arith
Links-lt e m h (x ∷ xs) l = omega (arith, l.1.below)

-- `kfree` of a page of the mapped memory above the kernel that is not free yet succeeds, and puts the
-- page at the front of the free list.
pub kfree-Holds :
    (e : ℕ) (k : Kmem) (v : ℕ) (xs : List ℕ)
    → IsPage e v
    → All (λ y. y ≢ v) xs
    → Holds e k xs
    → (k' : Kmem) × (kfree e k v ≡ done k') × Holds e k' (v ∷ xs)
unfolding kfree
kfree-Holds e k v xs page out l = (
  record k { memory = put_word (memset k.memory v 1 pgsize) v k.freelist; freelist = v },
  ground (arith, page.aligned, page.above, page.mapped, page.below),
  (
    refl,
    page,
    out,
    rw (word_back (memset k.memory v 1 pgsize) v k.freelist (Links-lt e k.memory k.freelist xs l))
        (Links-freed e k.memory v k.freelist k.freelist xs page.aligned out l),
  ),
)

-- What `kalloc` does to a free list.
abbrev pub Allocates : ℕ → List ℕ → ℕ × Kmem → Type 0
Allocates e [] r = (r.0 ≡ 0) × Holds e r.1 []
Allocates e (x ∷ xs) r = (r.0 ≡ x) × Holds e r.1 xs

-- `kalloc` hands out the first page of the free list and takes it off the list; with no page free it
-- returns 0 and the list stays empty.
pub kalloc-Allocates : (e : ℕ) (k : Kmem) (xs : List ℕ) → Holds e k xs → Allocates e xs (kalloc k)
unfolding kalloc
kalloc-Allocates e k [] l = ground arith
kalloc-Allocates e k (x ∷ xs) l =
    let some_page : (k.freelist == 0) ≡ false = ground (arith, l.1.mapped) in
    rw some_page (l.0, subst (λ h. Links e k.memory (get_word k.memory h) xs) (sym l.0) l.3)
