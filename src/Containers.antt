-- ===== src/Containers.antt =====
-- Containers: `fork` of proc.c with the quota of a container, `cm_maxproc`, and what
-- `cm_create_and_enter` does to the tables. Open files, the current directory and shared pages are
-- not part of the state. A container's `init` string is a parameter, since nothing in the kernel
-- gives `c->init` a place to point to; so is `copyuvm` of vm.c, which gives 0 when it fails.
pub mod Fork
pub mod Child
pub mod Quota
mod Tests
use dockv6_project.Base.{
  ℕ, ◌+◌, ◌-◌, ◌==◌, if◌then◌else◌, ltb, leb, ◌&&◌, ◌||◌, not, Bool, true, false, Option, none,
  some, List, [], ◌∷◌, find_first, is_null,
}
use dockv6_project.Base.Int.{ℤ, pos, negsuc, minus_one, is_zero, to_uint}
use dockv6_project.CString.{View, bytes, strncmp, strncpy, strlen, safestrcpy}
use dockv6_project.Kalloc.{Kmem, Outcome, done, kfree}
use dockv6_project.Kernel.{
  Kernel, Proc, unused, runnable, set_proc, set_container, no_id, nproc_max, max_num_containers,
}
use dockv6_project.Queue.{Result, ok, fault, out_of_fuel, prio_set}
use dockv6_project.Process.{allocproc, set_state}
use dockv6_project.Mutex.{length}

-- `nproc >= NPROC`
abbrev pub too_many : ℤ → Bool
too_many (pos n) = leb nproc_max n
too_many (negsuc n) = false

-- `cm_maxproc(nproc)`. Without a container pointer the container id is 0 and the answer -1.
unfoldable pub cm_maxproc : Kernel → ℕ → ℤ → ℤ × Kernel
cm_maxproc k cur nproc = if too_many nproc then (minus_one, k) else elim (k.procs cur).container [
  | none ↦ (minus_one, k)
  | some c ↦
      if not ((k.containers c).nproc == no_id) || ((k.procs cur).container_id == 0)
      then (minus_one, k)
      else (pos 1, set_container k c (record (k.containers c) { nproc = to_uint nproc }))
]

abbrev pub cm_name : List ℕ
cm_name = b'c' ∷ b'm' ∷ []

-- `strncmp(name, "cm", strlen(name)) == 0`; a name has a NUL among its 16 bytes.
unfoldable pub is_cm : View → Bool
is_cm name = elim (strlen 16 name) [
  | none ↦ false
  | some n ↦ is_zero (strncmp name (bytes cm_name) n)
]

pub data QuotaTaken : Type 0 where
  passes : Kernel → QuotaTaken
  -- returns -1
  at_limit : QuotaTaken
  null_container : QuotaTaken

-- The start of `fork`: the quota of the container, if the caller is in one.
unfoldable pub take_quota : Kernel → ℕ → QuotaTaken
take_quota k cur =
    if (k.procs cur).container_id == 0 then passes k else elim (k.procs cur).container [
      | none ↦ null_container
      | some c ↦
          if (k.containers c).nproc == 0
          then at_limit
          else passes
              (set_container k c (record (k.containers c) { nproc = (k.containers c).nproc - 1 }))
    ]

-- `cm_create_and_enter` up to its call of `cm_maxproc`: the container that it takes, or -1.
unfoldable pub enter_container : Kernel → ℕ → Option ℕ × Kernel
enter_container k cur =
    let p = record (k.procs cur) { name = strncpy (k.procs cur).name (bytes cm_name) 2 } in
    elim (find_first max_num_containers 0 (λ c. (k.containers c).container_id == no_id)) [
      | none ↦ (none, set_proc k cur p)
      | some c ↦ (
        some c,
        set_proc
            (record (set_container k c (record (k.containers c) { container_id = k.nextcid })) {
              nextcid = k.nextcid + 1;
            })
            cur (record p { container = some c; container_id = k.nextcid }),
      )
    ]

pub data Forked : Type 0 where
  -- returns -1
  refused : Kernel → Forked
  -- returns the pid of the entry
  forked : ℕ → ℕ → Kernel → Forked
  -- `kfree` panics
  panicked : Forked
  -- goes through a null pointer or behind an array, or `prio_set` does or does not end
  faulted : Forked

module _ (init : ℕ → List ℕ) where
  -- The name of the child. `none` is a null container, or a copy that runs over the 16 bytes.
  unfoldable pub child_name : Proc → Proc → Option View
  unfolding is_cm
  child_name parent np =
      if not (is_cm parent.name)
      then some (safestrcpy np.name parent.name 16)
      else elim parent.container [
        | none ↦ none
        | some c ↦
            if ltb 16 (length (init c))
            then none
            else some (safestrcpy np.name (bytes (init c)) (length (init c)))
      ]

-- What the child gets from its parent.
abbrev pub copy_process : Kernel → ℕ → ℕ → ℕ → Kmem → View → Kernel
copy_process k cur i pgdir m name =
    set_proc (record k { kmem = m }) i
      (record (k.procs i) {
        pgdir = pgdir;
        sz = (k.procs cur).sz;
        parent = some cur;
        container = (k.procs cur).container;
        container_id = (k.procs cur).container_id;
        name = name;
      })

-- The end of `fork`.
unfoldable pub make_ready : ℕ → Result ℤ → Forked
make_ready i (ok r k) = forked (k.procs i).pid i (set_state k i runnable)
make_ready i fault = faulted
make_ready i out_of_fuel = faulted

module _ (fuel : ℕ) where
  unfoldable pub second_prio : ℕ → ℕ → Result ℤ → Forked
  unfolding make_ready
  second_prio cur i (ok r k) =
      make_ready i (prio_set fuel k cur (k.procs i).pid (k.procs cur).priority)
  second_prio cur i fault = faulted
  second_prio cur i out_of_fuel = faulted

  unfoldable pub set_prios : Kernel → ℕ → ℕ → Forked
  unfolding second_prio is_cm
  set_prios k cur i =
      if ltb 1 (k.procs cur).pid && not (is_cm (k.procs i).name)
      then second_prio cur i (prio_set fuel k cur (k.procs i).pid 1)
      else second_prio cur i (ok (pos 0) k)

-- `copyuvm` has failed: `kfree(np->kstack); np->kstack = 0; np->state = UNUSED;`
unfoldable pub undo_alloc : Kernel → ℕ → Outcome → Forked
undo_alloc k i (done m) =
    refused (set_proc (record k { kmem = m }) i (record (k.procs i) { kstack = 0; state = unused }))
undo_alloc k i Outcome.panic = panicked
undo_alloc k i Outcome.out_of_fuel = panicked

-- `cm_create_and_enter` behind the call of `fork`, in the parent.
unfoldable pub leave_container : ℕ → Forked → Forked
leave_container cur (refused k) =
    refused (set_proc k cur (record (k.procs cur) { container_id = 0 }))
leave_container cur (forked pid i k) =
    forked pid i (set_proc k cur (record (k.procs cur) { container_id = 0 }))
leave_container cur panicked = panicked
leave_container cur faulted = faulted

module _ (kernel_end : ℕ) (copyuvm : Kmem → ℕ → ℕ → ℕ × Kmem) (init : ℕ → List ℕ) (fuel : ℕ) where
  -- `fork` with the entry that `allocproc` gave it.
  unfoldable pub fill_child : Kernel → ℕ → ℕ → Forked
  unfolding set_prios undo_alloc child_name
  fill_child k cur i =
      let (pgdir, m) = copyuvm k.kmem (k.procs cur).pgdir (k.procs cur).sz in
      if pgdir == 0
      then undo_alloc k i (kfree kernel_end m (k.procs i).kstack)
      else elim (child_name init (k.procs cur) (k.procs i)) [
        | none ↦ faulted
        | some name ↦ set_prios fuel (copy_process k cur i pgdir m name) cur i
      ]

  unfoldable pub after_alloc : ℕ → Option ℕ × Kernel → Forked
  unfolding fill_child
  after_alloc cur (none, k) = refused k
  after_alloc cur (some i, k) = fill_child k cur i

  unfoldable pub fork : Kernel → ℕ → Forked
  unfolding take_quota after_alloc
  fork k cur = elim (take_quota k cur) [
    | null_container ↦ faulted
    | at_limit ↦ refused k
    | passes k1 ↦ after_alloc cur (allocproc k1 (k1.procs cur).priority)
  ]

  -- `cm_create_and_enter`, in the parent, which gets 1 whatever `fork` gave; `none` is -1.
  unfoldable pub cm_create_and_enter : Kernel → ℕ → ℤ → Option Forked
  unfolding cm_maxproc fork leave_container
  cm_create_and_enter k cur nproc =
      let (c, k1) = enter_container k cur in
      if is_null c then none else some (leave_container cur (fork (cm_maxproc k1 cur nproc).1 cur))
