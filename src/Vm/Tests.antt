-- ===== src/Vm/Tests.antt =====
-- The theorems on page tables and shared pages at a small memory.
use dockv6_project.Base.{ℕ, refl, arith, false, none, [], ◌∷◌}
use dockv6_project.Kalloc.{Kmem}
use dockv6_project.Vm.{mappages, pte_wu}
use dockv6_project.Vm.Walk.{DirOk, MapEnds, uva2ka-mappages}
use dockv6_project.Vm.Shared.{SharedMem, Shmem, State}

abbrev kernel_end : ℕ
kernel_end = 0x8011_5000

-- One free page, which becomes the page table, and an empty directory.
abbrev free_page : ℕ
free_page = 0x8040_0000

abbrev directory : ℕ
directory = 0x8050_0000

abbrev one_free : Kmem
one_free = record { memory = λ _. 0; use_lock = false; freelist = free_page }

one_free-DirOk : DirOk kernel_end one_free (free_page ∷ []) directory 0x3000
one_free-DirOk = record {
  free_list = (refl, omega arith, tt, refl);
  page = omega arith;
  not_free = (omega arith, tt);
  table = λ p. absurd (ground (arith, p));
}

uva2ka-mappages_example :
    MapEnds one_free
      (free_page ∷ [])
      directory
      0x3000
      0x60_0000
      (mappages 1 one_free directory 0x3000 4096 0x60_0000 pte_wu)
uva2ka-mappages_example =
    uva2ka-mappages 0 kernel_end one_free (free_page ∷ []) directory 0x3000 4096 0x60_0000 pte_wu
      one_free-DirOk (omega arith) (omega arith) (omega arith) (omega arith) (omega arith)
      (omega arith) (omega arith) refl

-- A process without shared pages, and no pages to share.
abbrev no_slot : Shmem
no_slot = record { in_use = false; name = λ _. 0; va = 0; global_ptr = none }

abbrev no_page : SharedMem
no_page = record { name = λ _. 0; pa = 0; refcount = 0; in_use = false; container_id = 0 }

abbrev unshared : State
unshared = record {
  kmem = one_free;
  low = λ _. 0;
  list = λ _. no_page;
  proc = record { sz = 0x3000; pgdir = directory; container_id = 1; shared = λ _. no_slot };
}
