-- ===== src/Queue/Tests.antt =====
-- The theorems on the priority queue at a concrete queue.
use dockv6_project.Base.{ℕ, ◌+◌, refl, arith, Option, none, some, [], ◌∷◌, if◌then◌else◌, ◌==◌}
use dockv6_project.Kernel.{Kernel, blank_proc, boot, blank_bin, runnable}
use dockv6_project.Queue.{pqueue_enqueue}
use dockv6_project.Queue.Enqueue.{IsBin, enqueue-IsBin}

-- Entry `i` holds pid `i + 1`; its parent is the entry before, and entries 1 to 3 stand in bin 2.
abbrev links : ℕ → Option ℕ
links i = if i == 1 then some 2 else if i == 2 then some 3 else none

abbrev parents : ℕ → Option ℕ
parents i = if i == 1 then some 0 else if i == 2 then some 1 else if i == 3 then some 2 else none

abbrev queued : Kernel
queued = record boot {
  procs = λ i. record blank_proc {
    state = runnable;
    pid = i + 1;
    parent = parents i;
    next = links i;
    priority = 2;
  };
  bins = λ i. if i == 2 then record { head = some 1; tail = some 3; size = 3 } else blank_bin;
}

IsBin-two : IsBin queued 2 (1 ∷ 2 ∷ 3 ∷ [])
IsBin-two = record {
  chain = (refl, (refl, (refl, refl)));
  tail = refl;
  size = refl;
  distinct = omega arith;
}

enqueue-IsBin_example : IsBin (pqueue_enqueue queued 7 2) 2 (1 ∷ 2 ∷ 3 ∷ 7 ∷ [])
enqueue-IsBin_example =
    enqueue-IsBin queued 7 2 (1 ∷ 2 ∷ 3 ∷ []) (omega arith) IsBin-two (omega arith)
