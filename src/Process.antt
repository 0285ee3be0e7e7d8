-- ===== src/Process.antt =====
-- The process table of proc.c: `pinit`, `allocproc`, `wakeup`, `sleep`, `yield`, the scheduler's
-- choice, `wait`, and the part of `exit` that runs under `ptable.lock`. Each definition is what the
-- code does while it holds that lock; `cur` is the index of `myproc()`.
pub mod Wakeup
pub mod Family
pub mod Orphans
pub mod Alloc
mod Tests
use dockv6_project.Base.{
  ℕ, zero, suc, ◌+◌, ◌==◌, if◌then◌else◌, ltb, ◌&&◌, ◌||◌, not, Bool, true, false, Option, none,
  some, update, same_ptr, find_first,
}
use dockv6_project.CString.{prepend, next}
use dockv6_project.Kalloc.{Kmem, Outcome, done, kfree, kalloc}
use dockv6_project.Kernel.{
  Kernel, Proc, ProcState, unused, embryo, sleeping, runnable, running, zombie, Chan, null_chan,
  on_proc, same_chan, is_unused, is_sleeping, is_runnable, is_zombie, nproc_max, set_proc,
  set_container, inc32,
}
use dockv6_project.Queue.{pqueue_enqueue}

-- `p->state = s`
abbrev pub set_state : Kernel → ℕ → ProcState → Kernel
set_state k i s = set_proc k i (record (k.procs i) { state = s })

-- `pinit`
unfoldable pub pinit : Kernel → Kernel
pinit k = record k {
  procs = λ i. if ltb i nproc_max then record (k.procs i) { container_id = 0 } else k.procs i;
}

-- `wakeup1(chan)`, and `wakeup(chan)`, which takes the lock round it.
unfoldable pub wakeup1 : Kernel → Chan → Kernel
wakeup1 k c = record k {
  procs = λ i.
      if ltb i nproc_max && (is_sleeping (k.procs i).state && same_chan (k.procs i).chan c)
      then record (k.procs i) { state = runnable }
      else k.procs i;
}

-- `sleep(chan, lk)` up to `sched()`, and behind it.
unfoldable pub sleep_on : Kernel → ℕ → Chan → Kernel
sleep_on k cur c = set_proc k cur (record (k.procs cur) { chan = c; state = sleeping })

unfoldable pub resume : Kernel → ℕ → Kernel
resume k cur = set_proc k cur (record (k.procs cur) { chan = null_chan })

-- `yield()` up to `sched()`.
unfoldable pub yield : Kernel → ℕ → Kernel
yield k cur = set_state k cur runnable

-- One round of the loop in `scheduler`, at the table entry `i`: whether the process is switched to,
-- and the kernel when it is.
unfoldable pub dispatch : Kernel → ℕ → Option Kernel
dispatch k i = if is_runnable (k.procs i).state then some (set_state k i running) else none

-- The entry that the loop in `scheduler` switches to next, from entry `i` on with `n` left.
unfoldable pub pick : ℕ → ℕ → Kernel → Option ℕ
unfolding find_first
pick n i k = find_first n i (λ j. is_runnable (k.procs j).state)

-- `p->state = EMBRYO; p->pid = nextpid++;`
abbrev pub begin_entry : Kernel → ℕ → Kernel
begin_entry k i = record (set_proc k i (record (k.procs i) { state = embryo; pid = k.nextpid })) {
  nextpid = k.nextpid + 1;
}

-- The entry that `allocproc` takes, as it fills it in under the lock.
unfoldable pub take_entry : Kernel → ℕ → ℕ → Kernel
take_entry k i priority =
    let k2 = pqueue_enqueue (begin_entry k i) i priority in
    set_proc k2 i (record (k2.procs i) { container_id = 0; mutex = λ _. none })

-- `allocproc(priority)`: the entry, or none. The frames at the top of the stack are not modelled.
unfoldable pub allocproc : Kernel → ℕ → Option ℕ × Kernel
allocproc k priority = elim (find_first nproc_max 0 (λ i. is_unused (k.procs i).state)) [
  | none ↦ (none, k)
  | some i ↦
      let k1 = take_entry k i priority in
      let (page, kmem') = kalloc k1.kmem in
      let k2 = set_proc (record k1 { kmem = kmem' }) i (record (k1.procs i) { kstack = page }) in
      if page == 0 then (none, set_state k2 i unused) else (some i, k2)
]

-- The scan of `wait`: a zombie child, or whether there is a child at all.
pub data Found : Type 0 where
  zombie_child : ℕ → Found
  kids : Bool → Found

unfoldable pub wait_scan : ℕ → ℕ → Kernel → ℕ → Bool → Found
wait_scan zero i k cur havekids = kids havekids
wait_scan (suc n) i k cur havekids =
    let child = wait_scan n (suc i) k cur true in
    let rest = wait_scan n (suc i) k cur havekids in
    if not (same_ptr (k.procs i).parent (some cur))
    then rest
    else if is_zombie (k.procs i).state
    then zombie_child i
    else child

-- `curproc->container->nproc++`, for a process in a container, whose `container` is then set.
abbrev pub give_back : Kernel → ℕ → Kernel
give_back k cur = if (k.procs cur).container_id == 0 then k else elim (k.procs cur).container [
  | none ↦ k
  | some c ↦ set_container k c (record (k.containers c) { nproc = inc32 (k.containers c).nproc })
]

-- The entry of a reaped child.
abbrev pub cleared : Proc → Proc
cleared p = record p {
  kstack = 0;
  pid = 0;
  parent = none;
  name = prepend 0 (next p.name);
  killed = false;
  state = unused;
}

pub data Waited : Type 0 where
  reaped : ℕ → Kernel → Waited
  no_children : Waited
  asleep : Kernel → Waited
  panicked : Waited

-- `freevm` is that of vm.c, and `kernel_end` the linker's `end`.
module _ (kernel_end : ℕ) (freevm : Kmem → ℕ → Kmem) where
  -- What follows the call of `kfree`.
  unfoldable pub reap_freed : Kernel → ℕ → ℕ → Outcome → Waited
  reap_freed k cur i (done m) = reaped (k.procs i).pid (
      give_back (set_proc (record k { kmem = freevm m (k.procs i).pgdir }) i (cleared (k.procs i)))
        cur)
  reap_freed k cur i Outcome.panic = panicked
  reap_freed k cur i Outcome.out_of_fuel = panicked

  unfoldable pub reap : Kernel → ℕ → ℕ → Waited
  unfolding kfree reap_freed
  reap k cur i = reap_freed k cur i (kfree kernel_end k.kmem (k.procs i).kstack)

  unfoldable pub after_scan : Kernel → ℕ → Found → Waited
  unfolding reap sleep_on
  after_scan k cur (zombie_child i) = reap k cur i
  after_scan k cur (kids b) =
      if not b || (k.procs cur).killed then no_children else asleep (sleep_on k cur (on_proc cur))

  -- One round of the loop of `wait`: when it sleeps, it starts over once it is woken.
  unfoldable pub wait_round : Kernel → ℕ → Waited
  unfolding after_scan wait_scan
  wait_round k cur = after_scan k cur (wait_scan nproc_max 0 k cur false)

-- `wakeup1(curproc->parent)`: a null parent is the null channel.
abbrev pub chan_of : Option ℕ → Chan
chan_of none = null_chan
chan_of (some p) = on_proc p

-- One round of the loop of `exit` that passes children to init.
unfoldable pub reparent_one : Kernel → ℕ → ℕ → Kernel
reparent_one k cur i =
    if same_ptr (k.procs i).parent (some cur)
    then (let k1 = set_proc k i (record (k.procs i) { parent = some k.initproc }) in
        if is_zombie (k.procs i).state then wakeup1 k1 (on_proc k.initproc) else k1)
    else k

unfoldable pub reparent : ℕ → ℕ → Kernel → ℕ → Kernel
reparent zero i k cur = k
reparent (suc n) i k cur = reparent n (suc i) (reparent_one k cur i) cur

-- `exit` from `acquire(&ptable.lock)` to `sched()`.
unfoldable pub exit_table : Kernel → ℕ → Kernel
exit_table k cur =
    set_state (reparent nproc_max 0 (wakeup1 k (chan_of (k.procs cur).parent)) cur) cur zombie
