-- ===== src/Lifecycle/Pids.antt =====
-- No two processes have the same pid, however the kernel runs.
use dockv6_project.Base.{ℕ, ◌<◌, ◌≡◌, ◌≢◌, ◌⊎◌}
use dockv6_project.Kalloc.{Kmem}
use dockv6_project.Kernel.{Kernel, boot}

-- Pids are numbers given out already, and only the pid 0 of free entries is there twice.
pub record PidsOk (k : Kernel) : Type 0 where
  pub given : (i : ℕ) → (k.procs i).pid < k.nextpid
  pub distinct : (i j : ℕ) → i ≢ j → (k.procs i).pid ≡ (k.procs j).pid → (k.procs i).pid ≡ 0

-- A step that gives out no pid.
record NoNewPid (k k' : Kernel) : Type 0 where
  next : k'.nextpid ≡ k.nextpid
  pid : (i : ℕ) → ((k'.procs i).pid ≡ (k.procs i).pid) ⊎ ((k'.procs i).pid ≡ 0)

-- The kernel at its start, with the pages that `kinit1` and `kinit2` have put on the free list.
abbrev pub booted : Kmem → Kernel
booted m = record boot { kmem = m }
