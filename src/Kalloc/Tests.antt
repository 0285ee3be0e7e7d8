-- ===== src/Kalloc/Tests.antt =====
-- The theorems on the page allocator at concrete pages.
use dockv6_project.Base.{ℕ, ◌≡◌, refl, arith, false, [], ◌∷◌}
use dockv6_project.Kalloc.{Kmem, kfree, freerange, done}
use dockv6_project.Kalloc.FreeList.{Holds, IsPage, kfree-Holds}
use dockv6_project.Kalloc.Range.{freerange-Holds, page_list}

abbrev kernel_end : ℕ
kernel_end = 0x8011_5000

abbrev empty : Kmem
empty = record { memory = λ _. 0; use_lock = false; freelist = 0 }

abbrev page : ℕ
page = 0x8040_0000

-- One free page, whose first word is 0.
abbrev one_free : Kmem
one_free = record empty { freelist = page }

one_free-Holds : Holds kernel_end one_free (page ∷ [])
one_free-Holds = (refl, omega arith, tt, refl)

next-IsPage : IsPage kernel_end 0x8040_1000
next-IsPage = omega arith

kfree-Holds_example :
    (k' : Kmem) × (kfree kernel_end one_free 0x8040_1000 ≡ done k')
    × Holds kernel_end k' (0x8040_1000 ∷ page ∷ [])
kfree-Holds_example =
    kfree-Holds kernel_end one_free 0x8040_1000 (page ∷ []) next-IsPage (omega arith) one_free-Holds

-- Three pages, from an address that is not on a page boundary.
freerange-Holds_example :
    (k' : Kmem) × (freerange kernel_end 9 empty 0x803F_F123 0x8040_3000 ≡ done k')
    × Holds kernel_end k' (0x8040_2000 ∷ 0x8040_1000 ∷ 0x8040_0000 ∷ [])
unfolding page_list
freerange-Holds_example =
    freerange-Holds kernel_end 9 empty 0x803F_F123 0x8040_3000 [] (omega arith) (omega arith) tt
      (omega arith) refl
