-- ===== src/Lifecycle.antt =====
-- The process table as a state machine: each step is one of the operations of proc.c under
-- `ptable.lock`, as `Process` and `Mutex` model them. A process runs, and can make a step, when the
-- scheduler has dispatched it.
pub mod States
pub mod Pids
mod Tests
use dockv6_project.Base.{ℕ, ◌≡◌, Bool, true, false, some}
use dockv6_project.Kalloc.{Kmem}
use dockv6_project.Kernel.{
  Kernel, ProcState, unused, embryo, sleeping, runnable, running, zombie, Chan, set_proc,
}
use dockv6_project.Process.{
  allocproc, set_state, dispatch, yield, sleep_on, resume, wakeup1, exit_table, wait_round, reaped,
}
use dockv6_project.Mutex.{kill_entry}

-- `np->kstack = 0; np->state = UNUSED;` in `fork`.
unfoldable pub give_up : Kernel → ℕ → Kmem → Kernel
give_up k i m =
    set_proc (record k { kmem = m }) i (record (k.procs i) { kstack = 0; state = unused })

-- The states that may follow one another.
abbrev pub may_follow : ProcState → ProcState → Bool
may_follow unused unused = true
may_follow unused embryo = true
may_follow embryo embryo = true
may_follow embryo runnable = true
may_follow embryo unused = true
may_follow sleeping sleeping = true
may_follow sleeping runnable = true
may_follow runnable runnable = true
may_follow runnable running = true
may_follow running running = true
may_follow running runnable = true
may_follow running sleeping = true
may_follow running zombie = true
may_follow zombie zombie = true
may_follow zombie unused = true
may_follow _ _ = false

abbrev pub InState : Kernel → ℕ → ProcState → Type 0
InState k i s = (k.procs i).state ≡ s

pub data Step : Kernel → Kernel → Type 0 where
  -- `allocproc`, in `fork` and `userinit`
  allocates : (k : Kernel) (priority : ℕ) → Step k (allocproc k priority).1
  -- `fork` when `copyuvm` fails; `m` is the allocator's state behind `kfree(np->kstack)`
  gives_up : (k : Kernel) (i : ℕ) (m : Kmem) → InState k i embryo → Step k (give_up k i m)
  -- the end of `fork` and of `userinit`
  readies : (k : Kernel) (i : ℕ) → InState k i embryo → Step k (set_state k i runnable)
  dispatches : {k k' : Kernel} (i : ℕ) → dispatch k i ≡ some k' → Step k k'
  yields : (k : Kernel) (i : ℕ) → InState k i running → Step k (yield k i)
  goes_to_sleep : (k : Kernel) (i : ℕ) (c : Chan) → InState k i running → Step k (sleep_on k i c)
  resumes : (k : Kernel) (i : ℕ) → InState k i running → Step k (resume k i)
  wakes : (k : Kernel) (c : Chan) → Step k (wakeup1 k c)
  exits : (k : Kernel) (i : ℕ) → InState k i running → Step k (exit_table k i)
  reaps :
      {k k' : Kernel} (kernel_end : ℕ) (freevm : Kmem → ℕ → Kmem) (cur pid : ℕ)
      → wait_round kernel_end freevm k cur ≡ reaped pid k'
      → Step k k'
  kills : (k : Kernel) (i : ℕ) → Step k (kill_entry k i)

pub data Reach (k : Kernel) : Kernel → Type 0 where
  here : Reach k k
  after : {k' k'' : Kernel} → Reach k k' → Step k' k'' → Reach k k''
