-- ===== src/Kalloc/Range.antt =====
-- `freerange` of kalloc.c, with which `kinit1` and `kinit2` fill the free list.
use dockv6_project.Base.{
  ℕ, zero, suc, ◌+◌, ◌*◌, ◌%◌, ◌/◌, ◌-◌, ◌≤◌, ◌<◌, ◌≡◌, ◌≢◌, arith, List, [], ◌∷◌, ◌++◌, leb, ap,
  subst, true, false,
}
use dockv6_project.Kalloc.{
  Kmem, done, pgsize, pgroundup, phystop, kernbase, freerange_loop, freerange,
}
use dockv6_project.Kalloc.FreeList.{All, IsPage, Holds, kfree-Holds}

-- The `n` pages from `p` on, the last one first.
unfoldable pub page_list : ℕ → ℕ → List ℕ
page_list zero p = []
page_list (suc n) p = (p + n * pgsize) ∷ page_list n p

page_list-first :
    (n p : ℕ) (xs : List ℕ) → page_list n (p + pgsize) ++ (p ∷ xs) ≡ page_list (suc n) p ++ xs
unfolding page_list
page_list-first zero p xs = ap (λ (a : ℕ). a ∷ xs) (omega arith)
page_list-first (suc n) p xs =
    let here : p + pgsize + n * pgsize ≡ p + suc n * pgsize = omega arith in
    rw here (ap (λ l. (p + suc n * pgsize) ∷ l) (page_list-first n p xs))

All-lt-ne : (p : ℕ) (xs : List ℕ) → All (λ y. y < p) xs → All (λ y. y ≢ p) xs
All-lt-ne p [] a = tt
All-lt-ne p (x ∷ xs) a = (omega arith, All-lt-ne p xs a.1)

All-lt_mono : (p q : ℕ) (xs : List ℕ) → p ≤ q → All (λ y. y < p) xs → All (λ y. y < q) xs
All-lt_mono p q [] h a = tt
All-lt_mono p q (x ∷ xs) h a = (omega arith, All-lt_mono p q xs h a.1)

-- The range from `p` lies in the memory whose pages may be freed.
pub record InRange (e p vend : ℕ) : Type 0 where
  pub aligned : p % pgsize ≡ 0
  pub above : e ≤ p
  pub mapped : kernbase ≤ p
  pub below : vend ≤ kernbase + phystop

freerange_loop-Holds :
    (e fuel : ℕ) (k : Kmem) (p vend n : ℕ) (xs : List ℕ)
    → n < fuel
    → InRange e p vend
    → p + n * pgsize ≤ vend
    → vend < p + n * pgsize + pgsize
    → All (λ y. y < p) xs
    → Holds e k xs
    → (k' : Kmem) × (freerange_loop e fuel k p vend ≡ done k') × Holds e k' (page_list n p ++ xs)
unfolding freerange_loop page_list
freerange_loop-Holds e zero k p vend n xs f r lo hi a l = absurd (omega arith)
freerange_loop-Holds e (suc fuel) k p vend zero xs f r lo hi a l =
    let stop : leb (p + pgsize) vend ≡ false = ground arith in (k, rw (stop, freerange_loop), l)
freerange_loop-Holds e (suc fuel) k p vend (suc n) xs f r lo hi a l =
    let go : leb (p + pgsize) vend ≡ true = ground arith in
    let page : IsPage e p = omega (arith, r.aligned, r.above, r.mapped, r.below) in
    let (k1, e1, h1) = kfree-Holds e k p xs page (All-lt-ne p xs a) l in
    let r' : InRange e (p + pgsize) vend = omega (arith, r.aligned, r.above, r.mapped, r.below) in
    let (k2, e2, h2) =
      freerange_loop-Holds e fuel k1 (p + pgsize) vend n (p ∷ xs) (omega arith) r' (omega arith)
        (omega arith) (omega arith, All-lt_mono p (p + pgsize) xs (omega arith) a) h1 in
    (k2, rw (go, e1, freerange_loop) e2, subst (λ ys. Holds e k2 ys) (page_list-first n p xs) h2)

-- `freerange` frees every whole page of its range once, from `PGROUNDUP(vstart)` on, and no other:
-- the free list grows by just those pages, the last one in front. This holds for a range of the
-- mapped memory above the kernel and above the pages that are free already, with fuel above the
-- number of pages.
pub freerange-Holds :
    (e fuel : ℕ) (k : Kmem) (vstart vend : ℕ) (xs : List ℕ)
    → InRange e (pgroundup vstart) vend
    → pgroundup vstart ≤ vend
    → All (λ y. y < pgroundup vstart) xs
    → (vend - pgroundup vstart) / pgsize < fuel
    → Holds e k xs
    → (k' : Kmem) × (freerange e fuel k vstart vend ≡ done k')
      × Holds e k' (page_list ((vend - pgroundup vstart) / pgsize) (pgroundup vstart) ++ xs)
unfolding freerange
freerange-Holds e fuel k vstart vend xs r le a f l =
    let p = pgroundup vstart in
    freerange_loop-Holds e fuel k p vend ((vend - p) / pgsize) xs f r (omega arith) (omega arith) a
      l
