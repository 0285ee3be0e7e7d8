-- ===== src/Queue.antt =====
-- The priority queue of proc.c: `queueinit`, `pqueue_enqueue` and `prio_set`.
-- A bin is a list of processes linked through `p->next`.
pub mod Enqueue
pub mod Moves
pub mod Priority
pub mod Lost
pub mod Kept
mod Tests
use dockv6_project.Base.{
  ℕ, zero, suc, ◌+◌, ◌-◌, ◌==◌, if◌then◌else◌, ltb, ◌&&◌, not, Bool, true, false, Option, none,
  some, update, is_null, same_ptr, find_first,
}
use dockv6_project.Base.Int.{ℤ, pos, minus_one}
use dockv6_project.Kernel.{Kernel, Proc, Bin, nbin, nproc_max, set_proc, set_bin, blank_bin}

-- What a call on the kernel gives: the new kernel with a result, or a fault. A fault is the read
-- through a null pointer or behind the end of a table.
pub data Result (A : Type 0) : Type 0 where
  ok : A → Kernel → Result A
  fault : Result A
  out_of_fuel : Result A

-- `queueinit`
unfoldable pub queueinit : Kernel → Kernel
queueinit k = record k { bins = λ i. if ltb i nbin then blank_bin else k.bins i }

-- `p->next = q`, through a pointer that is not null.
abbrev pub set_next : Kernel → ℕ → Option ℕ → Kernel
set_next k i q = set_proc k i (record (k.procs i) { next = q })

-- `p->priority = priority`
abbrev pub set_priority : Kernel → ℕ → ℕ → Kernel
set_priority k i n = set_proc k i (record (k.procs i) { priority = n })

-- The bin after `p` is put at its end, and the link from the old last process.
unfoldable pub append_to_bin : Kernel → ℕ → ℕ → Kernel
append_to_bin k p n =
    let bin = k.bins n in
    elim bin.head [
      | none ↦ set_bin k n (record { head = some p; tail = some p; size = bin.size + 1 })
      | some h ↦ elim bin.tail [
        | none ↦ k
        | some t ↦
            set_bin (set_next k t (some p)) n
              (record { head = some h; tail = some p; size = bin.size + 1 })
      ]
    ]

-- `pqueue_enqueue(p, priority)`, for a priority below NBIN, which the code does not test, and a bin
-- that has a tail where it has a head: `allocproc` passes the priority of a process, and `prio_set`
-- faults for another one before the call.
unfoldable pub pqueue_enqueue : Kernel → ℕ → ℕ → Kernel
unfolding append_to_bin
pqueue_enqueue k p n = set_next (append_to_bin (set_priority k p n) p n) p none

-- The walk from `temp` up to the calling process: `0` when it gets there, `-1` at `initproc`.
unfoldable pub ancestry : ℕ → Kernel → ℕ → ℕ → Result ℤ
ancestry zero k cur temp = out_of_fuel
ancestry (suc fuel) k cur temp = elim (k.procs temp).parent [
  | none ↦ fault
  | some up ↦
      let rest = ancestry fuel k cur up in
      if up == cur then ok (pos 0) k else if up == k.initproc then ok minus_one k else rest
]

-- The walk along one bin behind its first process `p`: the process that it unlinks, if any.
unfoldable pub unlink_behind : ℕ → Kernel → ℕ → ℕ → Result (Option ℕ)
unlink_behind zero k p pid = out_of_fuel
unlink_behind (suc fuel) k p pid = elim (k.procs p).next [
  | none ↦ ok none k
  | some q ↦
      let rest = unlink_behind fuel k q pid in
      if (k.procs q).pid == pid then ok (some q) (set_next k p (k.procs q).next) else rest
]

-- `for (int i = 0; i < NBIN; i++)`, with `n` rounds left at `i`: the last process found so far.
unfoldable pub search_bins : ℕ → ℕ → ℕ → Kernel → ℕ → Option ℕ → Result (Option ℕ)
unfolding unlink_behind
search_bins fuel zero i k pid found = ok found k
search_bins fuel (suc n) i k pid found = elim (k.bins i).head [
  | none ↦ search_bins fuel n (suc i) k pid found
  | some p ↦ elim ((k.procs p).pid == pid) [
    | true ↦ ok (some p) k
    | false ↦ elim (unlink_behind fuel k p pid) [
      | ok (some q) k' ↦ search_bins fuel n (suc i) k' pid (some q)
      | ok none k' ↦ search_bins fuel n (suc i) k' pid found
      | fault ↦ fault
      | out_of_fuel ↦ out_of_fuel
    ]
  ]
]

-- `pqueue_enqueue(proc, priority)` of what the search found; with nothing found, `proc` is null. A
-- priority of NBIN or more is behind the table of the bins.
unfoldable pub enqueue_found : ℕ → Result (Option ℕ) → Result ℤ
unfolding pqueue_enqueue
enqueue_found n (ok (some p) k) = if ltb n nbin then ok (pos 0) (pqueue_enqueue k p n) else fault
enqueue_found n (ok none k) = fault
enqueue_found n fault = fault
enqueue_found n out_of_fuel = out_of_fuel

-- The end of `prio_set`, where the queue is changed.
unfoldable pub move_to_bin : ℕ → Kernel → ℕ → ℕ → Result ℤ
unfolding search_bins enqueue_found
move_to_bin fuel k pid n = enqueue_found n (search_bins fuel nbin 0 k pid none)

-- `prio_set` behind the walk up to the calling process.
unfoldable pub after_walk : ℕ → Kernel → ℕ → ℕ → ℕ → Result ℤ → Result ℤ
unfolding move_to_bin
after_walk fuel k p pid n (ok (pos r) k') =
    if n == (k.procs p).priority then ok (pos 0) k else move_to_bin fuel k pid n
after_walk fuel k p pid n (ok (ℤ.negsuc r) k') = ok minus_one k
after_walk fuel k p pid n fault = fault
after_walk fuel k p pid n out_of_fuel = out_of_fuel

-- `prio_set(pid, priority)` of the process `cur`; `n` is the priority as a `uint`, to which every
-- use of it converts it. Without a process of that pid the code reads `p->pid` behind the table.
unfoldable pub prio_set : ℕ → Kernel → ℕ → ℕ → ℕ → Result ℤ
unfolding ancestry after_walk
prio_set fuel k cur pid n = elim (find_first nproc_max 0 (λ i. (k.procs i).pid == pid)) [
  | none ↦ fault
  | some p ↦
      if ltb n (k.procs p).priority
      then ok minus_one k
      else after_walk fuel k p pid n
          (if pid == (k.procs cur).pid then ok (pos 0) k else ancestry fuel k cur p)
]
