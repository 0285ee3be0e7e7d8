-- ===== src/Mutex/Tests.antt =====
-- The theorems on mutexes at a concrete kernel, and runs of the calls.
use dockv6_project.Base.{
  ℕ, ◌≤◌, zero, suc, ◌≡◌, ◌≢◌, refl, arith, none, some, if◌then◌else◌, ◌==◌, true, false, List, [],
  ◌∷◌,
}
use dockv6_project.Base.Sums.{sum_below, sum_bound}
use dockv6_project.CString.{bytes}
use dockv6_project.Kernel.{
  Kernel, blank_proc, blank_mutex, boot, running, sleeping, on_mutex, mux_maxnum, nproc_max,
}
use dockv6_project.Mutex.{mutex_create, mutex_delete, kill, kill_entry, delete_all}
use dockv6_project.Mutex.Holder.{Holding, deletes, run_call, call-Holding}
use dockv6_project.Mutex.Create.{GrantsOnce, mutex_create-Grants}
use dockv6_project.Mutex.Kills.{Kills, kill-Kills}
use dockv6_project.Mutex.Freed.{OnlySlot, killed_exit-frees}
use dockv6_project.Mutex.Refs.{slot_refs, points_to, Counted, refs, delete-Counted}

abbrev buffer : List ℕ
buffer = b'b' ∷ b'u' ∷ b'f' ∷ []

-- Entries 0 and 1 share mutex 0, which entry 0 holds and entry 1 waits for.
abbrev sharing : Kernel
sharing = record boot {
  procs = λ i.
      if i == 0
      then record blank_proc {
        state = running;
        pid = 1;
        mutex = λ j. if j == 0 then some 0 else none;
      }
      else if i == 1
      then record blank_proc {
        state = sleeping;
        chan = on_mutex 0;
        pid = 2;
        mutex = λ j. if j == 2 then some 0 else none;
      }
      else blank_proc;
  mux = λ m.
      if m == 0
      then record blank_mutex {
        locked = true;
        is_alloc = true;
        pid = 1;
        name = bytes buffer;
        refcount = 2;
      }
      else blank_mutex;
  nextpid = 3;
}

sharing-Holding : Holding sharing 0 0
sharing-Holding = (refl, refl)

call-Holding_example : Holding (run_call sharing 1 (deletes 2)) 0 0
call-Holding_example =
    call-Holding sharing 0 0 1 sharing-Holding (omega arith) (deletes 2)
      (omega arith, λ _ last. omega (arith, last))

mutex_create-Grants_example : GrantsOnce sharing 2 buffer (mutex_create sharing 2 buffer)
mutex_create-Grants_example = mutex_create-Grants sharing 2 buffer (omega arith)

kill-Kills_example : Kills sharing 0 2 (kill sharing 0 2)
kill-Kills_example = kill-Kills sharing 0 2

sharing-OnlySlot : OnlySlot (sharing.procs 1) 2 0
sharing-OnlySlot = record { here = refl; nowhere = λ j ne e. ground arith }

killed_exit-frees_example :
    let k' = delete_all mux_maxnum 0 (kill_entry sharing 1) 1 in
    ((k'.mux 0).is_alloc ≡ false) × ((k'.procs 0).mutex 0 ≡ some 0)
killed_exit-frees_example =
    killed_exit-frees sharing 1 0 0 2 0 (omega arith) sharing-OnlySlot refl (omega arith) refl

unshared : (m p i : ℕ) → points_to ((sharing.procs p).mutex i) (suc m) ≤ 0
unshared m p i = ground arith

no_refs : (m : ℕ) → refs sharing (suc m) ≤ 0
no_refs m = omega (
  arith,
  sum_bound (λ p. slot_refs (sharing.procs p) (suc m)) 0 nproc_max
      (λ p. omega (
        arith,
        sum_bound (λ i. points_to ((sharing.procs p).mutex i) (suc m)) 0 mux_maxnum (unshared m p),
      )),
)

sharing-Counted : Counted sharing
unfolding sum_below
sharing-Counted zero = refl
sharing-Counted (suc m) = ground (arith, no_refs m)

delete-Counted_example :
    Counted (mutex_delete sharing 0 0)
    × ((m : ℕ)
        → (sharing.procs 0).mutex 0 ≡ some m
        → (refs (mutex_delete sharing 0 0) m ≡ 0
            → ((mutex_delete sharing 0 0).mux m).is_alloc ≡ false)
          × (refs (mutex_delete sharing 0 0) m ≢ 0
              → ((mutex_delete sharing 0 0).mux m).is_alloc ≡ (sharing.mux m).is_alloc))
delete-Counted_example = delete-Counted sharing 0 0 sharing-Counted (omega arith) (omega arith)
