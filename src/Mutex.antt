-- ===== src/Mutex.antt =====
-- The named mutexes of proc.c: `mutex_create`, `mutex_delete`, `mutex_lock`, `mutex_unlock`,
-- `cv_wait`, `cv_signal`, and `kill`, which takes a process out of its mutexes. Each definition is
-- what the code does in one critical section, with the `wakeup` that may follow it; where it sleeps
-- or gives up its lock it stops, and goes on with the definition that its comment names. A name is
-- the list of its bytes, without the NUL.
pub mod Holder
pub mod Signals
pub mod Create
pub mod Refs
pub mod Kills
pub mod Freed
mod Tests
use dockv6_project.Base.{
  ℕ, zero, suc, ◌+◌, ◌==◌, if◌then◌else◌, ltb, ◌&&◌, ◌||◌, not, Bool, true, false, Option, none,
  some, update, same_ptr, is_null, find_first, List, [], ◌∷◌,
}
use dockv6_project.Base.Int.{ℤ, pos, minus_one, is_zero}
use dockv6_project.CString.{bytes, strncmp, strncpy}
use dockv6_project.Kernel.{
  Kernel, Proc, Mutex, sleeping, runnable, on_mutex, same_chan, null_chan, is_sleeping, nproc_max,
  mux_maxnum, set_proc, set_mux, inc32, dec32,
}
use dockv6_project.Process.{wakeup1, sleep_on, resume, set_state}

-- `strlen(name)`
abbrev pub length : List ℕ → ℕ
length [] = 0
length (b ∷ s) = suc (length s)

-- `strncmp(name, m->name, strlen(name)) == 0`. For a name of more than 20 bytes the comparison may
-- read what stands behind `m->name`.
unfoldable pub same_name : List ℕ → Mutex → Bool
unfolding strncmp
same_name name m = is_zero (strncmp (bytes name) m.name (length name))

-- What the first loop of `mutex_create` finds: a mutex to share, or the first one not allocated.
pub data Scan : Type 0 where
  shared : ℕ → Scan
  vacant : Option ℕ → Scan

unfoldable pub scan_mux : ℕ → ℕ → Kernel → List ℕ → ℕ → Option ℕ → Scan
scan_mux zero i k name cid unallocated = vacant unallocated
scan_mux (suc n) i k name cid unallocated =
    let taken = scan_mux n (suc i) k name cid (some i) in
    let rest = scan_mux n (suc i) k name cid unallocated in
    if not (k.mux i).is_alloc && is_null unallocated
    then taken
    else if same_name name (k.mux i) && ((k.mux i).container_id == cid)
    then shared i
    else rest

-- The loop at `addtoProc`: whether the process has the mutex, or its first free slot.
pub data Slot : Type 0 where
  has_access : Slot
  first_free : Option ℕ → Slot

unfoldable pub scan_slots : ℕ → ℕ → (ℕ → Option ℕ) → ℕ → Option ℕ → Slot
scan_slots zero i slots m muxid = first_free muxid
scan_slots (suc n) i slots m muxid =
    let free = scan_slots n (suc i) slots m (some i) in
    let rest = scan_slots n (suc i) slots m muxid in
    if is_null (slots i) && is_null muxid
    then free
    else if same_ptr (slots i) (some m)
    then has_access
    else rest

-- `p->mutex[i] = q`
abbrev pub set_slot : Kernel → ℕ → ℕ → Option ℕ → Kernel
set_slot k p i q = set_proc k p (record (k.procs p) { mutex = update (k.procs p).mutex i q })

unfoldable pub add_to_proc : Kernel → ℕ → ℕ → Slot → ℤ × Kernel
add_to_proc k cur m has_access = (minus_one, k)
add_to_proc k cur m (first_free none) = (minus_one, k)
add_to_proc k cur m (first_free (some i)) = (
  pos i,
  set_slot (set_mux k m (record (k.mux m) { refcount = inc32 (k.mux m).refcount })) cur i (some m),
)

-- `char name[20]`
abbrev pub name_size : ℕ
name_size = 20

-- The mutex `m` as the code at `setupMutex` fills it in, with a name that fits.
abbrev pub fresh_mutex : Mutex → List ℕ → ℕ → Mutex
fresh_mutex m name cid = record m {
  is_alloc = true;
  name = strncpy m.name (bytes name) (length name);
  refcount = 1;
  container_id = cid;
  cv = false;
}

unfoldable pub setup_mutex : Kernel → ℕ → List ℕ → ℕ → ℤ × Kernel
setup_mutex k cur name m =
    let k1 = set_mux k m (fresh_mutex (k.mux m) name (k.procs cur).container_id) in
    elim (find_first mux_maxnum 0 (λ i. is_null ((k.procs cur).mutex i))) [
      | none ↦ (minus_one, k1)
      | some i ↦ (pos i, set_slot k1 cur i (some m))
    ]

-- `none` is a copy of the name that overwrites the fields behind it.
unfoldable pub create_from : Kernel → ℕ → List ℕ → Scan → Option (ℤ × Kernel)
create_from k cur name (shared m) =
    some (add_to_proc k cur m (scan_slots mux_maxnum 0 (k.procs cur).mutex m none))
create_from k cur name (vacant (some m)) =
    if ltb name_size (length name) then none else some (setup_mutex k cur name m)
create_from k cur name (vacant none) = some (minus_one, k)

unfoldable pub mutex_create : Kernel → ℕ → List ℕ → Option (ℤ × Kernel)
mutex_create k cur name =
    create_from k cur name (scan_mux mux_maxnum 0 k name (k.procs cur).container_id none)

-- `mutex_holding`
abbrev pub mutex_holding : Kernel → ℕ → ℕ → Bool
mutex_holding k cur m = (k.mux m).locked && ((k.mux m).pid == (k.procs cur).pid)

-- `strncpy(m->name, "", strlen(""))` copies no byte.
abbrev pub deallocated : Mutex → Mutex
deallocated m = record m { is_alloc = false; refcount = 0; container_id = 0; locked = false }

-- The calls take the index `muxid` of a slot, which is to be below MUX_MAXNUM: the code does not test
-- it, and reads behind `p->mutex` for another one.
unfoldable pub mutex_delete : Kernel → ℕ → ℕ → Kernel
mutex_delete k cur muxid = elim ((k.procs cur).mutex muxid) [
  | none ↦ k
  | some m ↦
      let k1 = set_slot k cur muxid none in
      if (k.mux m).refcount == 1
      then set_mux k1 m (deallocated (k.mux m))
      else set_mux k1 m (record (k.mux m) {
        locked = if mutex_holding k cur m then false else (k.mux m).locked;
        refcount = dec32 (k.mux m).refcount;
      })
]

unfoldable pub mutex_unlock : Kernel → ℕ → ℕ → Kernel
mutex_unlock k cur muxid = elim ((k.procs cur).mutex muxid) [
  | none ↦ k
  | some m ↦
      if mutex_holding k cur m
      then wakeup1 (set_mux k m (record (k.mux m) { locked = false })) (on_mutex m)
      else k
]

-- A call that returns, or that sleeps on the mutex `m`.
pub data Blocking : Type 0 where
  returns : Kernel → Blocking
  sleeps : ℕ → Kernel → Blocking

-- The loop of `mutex_lock`, which a process that wakes from it starts over.
unfoldable pub lock_loop : Kernel → ℕ → ℕ → Blocking
lock_loop k cur m =
    if (k.mux m).locked
    then sleeps m (sleep_on k cur (on_mutex m))
    else returns (set_mux k m (record (k.mux m) { locked = true; pid = (k.procs cur).pid }))

unfoldable pub mutex_lock : Kernel → ℕ → ℕ → Blocking
mutex_lock k cur muxid = elim ((k.procs cur).mutex muxid) [
  | none ↦ returns k
  | some m ↦ if mutex_holding k cur m then returns k else lock_loop k cur m
]

-- A process that was woken from `lock_loop`.
unfoldable pub lock_again : Kernel → ℕ → ℕ → Blocking
lock_again k cur m = lock_loop (resume k cur) cur m

-- The start of `cv_wait`: whether it goes on to its loop, on the mutex at the slot.
unfoldable pub cv_wait : Kernel → ℕ → ℕ → Bool × Kernel
cv_wait k cur muxid = elim ((k.procs cur).mutex muxid) [
  | none ↦ (false, k)
  | some m ↦ if mutex_holding k cur m then (true, mutex_unlock k cur muxid) else (false, k)
]

-- `cas(&mux->cv, 1, 0)` in the loop of `cv_wait`: whether the loop is left, to go on with
-- `mutex_lock`. Else it goes on with `cv_sleep`.
unfoldable pub cv_take : Kernel → ℕ → Bool × Kernel
cv_take k m =
    if (k.mux m).cv then (true, set_mux k m (record (k.mux m) { cv = false })) else (false, k)

-- The rest of a round of that loop, under `ptable.lock`. A process that wakes from it goes on with
-- `cv_take`.
unfoldable pub cv_sleep : Kernel → ℕ → ℕ → Kernel
cv_sleep k cur m = sleep_on k cur (on_mutex m)

-- One round of the loop of `cv_signal`, and whether it is the last one.
unfoldable pub signal_round : Kernel → ℕ → Bool × Kernel
signal_round k m =
    (not (k.mux m).cv, wakeup1 (set_mux k m (record (k.mux m) { cv = true })) (on_mutex m))

-- `cv_signal`, its first round; a null slot ends it at once.
unfoldable pub cv_signal : Kernel → ℕ → ℕ → Bool × Kernel
cv_signal k cur muxid = elim ((k.procs cur).mutex muxid) [
  | none ↦ (true, k)
  | some m ↦ signal_round k m
]

-- The mutex at slot `i` of a process that is killed. `cas(&mux->cv, 0, 1)` leaves the flag set.
unfoldable pub kill_slot : Kernel → ℕ → ℕ → Kernel
kill_slot k p i = elim ((k.procs p).mutex i) [
  | none ↦ k
  | some m ↦
      let woken = is_sleeping (k.procs p).state && same_chan (k.procs p).chan (on_mutex m) in
      let mux = k.mux m in
      if mux.refcount == 1
      then set_mux k m (record (deallocated mux) { cv = false })
      else set_mux k m
          (record mux { locked = false; refcount = dec32 mux.refcount; cv = woken || mux.cv })
]

-- The loop of `kill` over the slots.
unfoldable pub kill_slots : ℕ → ℕ → Kernel → ℕ → Kernel
kill_slots zero i k p = k
kill_slots (suc n) i k p = kill_slots n (suc i) (kill_slot k p i) p

-- The entry that `kill` has found.
unfoldable pub kill_entry : Kernel → ℕ → Kernel
kill_entry k p =
    let k1 = kill_slots mux_maxnum 0 (set_proc k p (record (k.procs p) { killed = true })) p in
    if is_sleeping (k1.procs p).state then set_state k1 p runnable else k1

unfoldable pub kill : Kernel → ℕ → ℕ → ℤ × Kernel
kill k cur pid =
    elim (find_first nproc_max 0
      (λ i. ((k.procs i).pid == pid) && ((k.procs i).container_id == (k.procs cur).container_id))) [
        | none ↦ (minus_one, k)
        | some p ↦ (pos 0, kill_entry k p)
      ]

-- The loop of `exit` over the slots.
unfoldable pub delete_all : ℕ → ℕ → Kernel → ℕ → Kernel
delete_all zero i k cur = k
delete_all (suc n) i k cur = delete_all n (suc i) (mutex_delete k cur i) cur
