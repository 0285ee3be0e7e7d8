-- ===== src/Process/Tests.antt =====
-- The theorems on the process table at concrete tables.
use dockv6_project.Base.{ℕ, ◌≡◌, refl, arith, some, if◌then◌else◌, ◌==◌, false}
use dockv6_project.Kalloc.{Kmem}
use dockv6_project.Kernel.{
  Kernel, blank_proc, boot, runnable, running, sleeping, on_proc, zombie, nproc_max,
}
use dockv6_project.Process.{wait_scan, zombie_child, exit_table, wait_round}
use dockv6_project.Process.Family.{IsChild, WaitEnds, wait_round-WaitEnds}
use dockv6_project.Process.Orphans.{Exited, exit-Exited, exit_seen_by_wait}

-- Entry 0 is init. Its child 1 sleeps in `wait` for its child 2, which runs and has a child 3.
abbrev family : Kernel
family = record boot {
  procs = λ i.
      if i == 0
      then record blank_proc { state = sleeping; pid = 1; chan = on_proc 0 }
      else if i == 1
      then record blank_proc { state = sleeping; pid = 2; parent = some 0; chan = on_proc 1 }
      else if i == 2
      then record blank_proc { state = running; pid = 3; parent = some 1; kstack = 0x8040_0000 }
      else if i == 3
      then record blank_proc { state = runnable; pid = 4; parent = some 2 }
      else blank_proc;
  nextpid = 5;
  kmem = record { memory = λ _. 0; use_lock = false; freelist = 0x8050_0000 };
}

exit-Exited_example : Exited family (exit_table family 2) 2
exit-Exited_example = exit-Exited family 2 (omega arith)

exit_seen_by_wait_example :
    (j : ℕ) × (wait_scan nproc_max 0 (exit_table family 2) 1 false ≡ zombie_child j)
    × IsChild (exit_table family 2) 1 j
exit_seen_by_wait_example =
    exit_seen_by_wait family 2 (omega arith) 1 refl (omega arith) (omega arith)

-- Entry 1, awake again, after the exit of its child.
abbrev awake : Kernel
awake = record family {
  procs = λ i.
      if i == 1
      then record (family.procs 1) { state = running }
      else if i == 2
      then record (family.procs 2) { state = zombie }
      else family.procs i;
}

abbrev freevm : Kmem → ℕ → Kmem
freevm m pgdir = m

wait_round-WaitEnds_example : WaitEnds awake 1 (wait_round 0x8011_5000 freevm awake 1)
wait_round-WaitEnds_example = wait_round-WaitEnds 0x8011_5000 freevm awake 1
