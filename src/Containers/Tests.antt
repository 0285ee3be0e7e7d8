-- ===== src/Containers/Tests.antt =====
-- The theorems on containers at a concrete kernel.
use dockv6_project.Base.{
  ℕ, ◌≡◌, refl, some, if◌then◌else◌, ◌==◌, Bool, true, false, find_first, List, [], ◌∷◌,
}
use dockv6_project.CString.{bytes}
use dockv6_project.Kernel.{Kernel, blank_proc, boot, running, no_id}
use dockv6_project.Kalloc.{Kmem}
use dockv6_project.Containers.{
  Forked, forked, fork, take_quota, after_alloc, fill_child, child_name, is_cm, set_prios,
  second_prio, make_ready,
}
use dockv6_project.Queue.{
  prio_set, after_walk, ancestry, move_to_bin, search_bins, unlink_behind, enqueue_found,
  pqueue_enqueue, append_to_bin,
}
use dockv6_project.Process.{allocproc, take_entry}
use dockv6_project.Kalloc.{kalloc}
use dockv6_project.CString.{strlen, strlen_from, strncmp, safestrcpy, safe_loop}

-- Entry 1 runs in container 0, which may fork three more processes.
abbrev contained : Kernel
contained = record boot {
  procs = λ i.
      if i == 1
      then record blank_proc {
        state = running;
        pid = 4;
        parent = some 0;
        container = some 0;
        container_id = 1;
        name = bytes (b's' ∷ b'h' ∷ []);
      }
      else blank_proc;
  containers = λ c. record { container_id = if c == 0 then 1 else no_id; nproc = 3 };
  nextpid = 5;
  nextcid = 2;
}

-- The same with one free page, for the kernel stack of a child.
abbrev with_page : Kernel
with_page = record contained {
  kmem = record { memory = λ _. 0; use_lock = false; freelist = 0x8040_0000 };
}

abbrev copyuvm : Kmem → ℕ → ℕ → ℕ × Kmem
copyuvm m pgdir sz = (0x8050_0000, m)

abbrev init : ℕ → List ℕ
init c = b's' ∷ b'h' ∷ []

abbrev is_forked : Forked → Bool
is_forked (forked pid i k) = pid == 5
is_forked _ = false

forks : is_forked (fork 0x8011_5000 copyuvm init 64 with_page 1) ≡ true
unfolding fork take_quota after_alloc fill_child child_name is_cm set_prios second_prio make_ready
    prio_set after_walk ancestry move_to_bin search_bins unlink_behind enqueue_found pqueue_enqueue
    append_to_bin allocproc take_entry kalloc find_first strlen strlen_from strncmp safestrcpy
    safe_loop
forks = refl
