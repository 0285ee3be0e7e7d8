-- ===== src/Process/Orphans.antt =====
-- What `exit` of proc.c does to the family of the process that ends.
use dockv6_project.Base.{
  ℕ, zero, suc, ◌+◌, ◌<◌, ◌≡◌, ◌≢◌, inl, inr, refl, arith, some, ◌==◌, false, ◌&&◌, Bool-cases,
  same_ptr, if◌then◌else◌, ◌∙◌, ltb, leb,
}
use dockv6_project.Kernel.{Kernel, runnable, on_proc, nproc_max, set_proc}
use dockv6_project.Process.{
  wakeup1, exit_table, reparent, reparent_one, wait_scan, Found, zombie_child, kids, chan_of,
}
use dockv6_project.Process.Wakeup.{
  SleepsOn, wakeup1-Woken, parent-wakeup1, initproc-wakeup1, runnable-wakeup1,
}
use dockv6_project.Process.Family.{IsChild, IsZombie, Scanned, wait_scan-Scanned, same_ptr_eq}

initproc-reparent_one : (k : Kernel) (cur i : ℕ) → (reparent_one k cur i).initproc ≡ k.initproc
unfolding reparent_one
initproc-reparent_one k cur i = ground (
  arith,
  initproc-wakeup1 (set_proc k i (record (k.procs i) { parent = some k.initproc }))
      (on_proc k.initproc),
)

-- The parent of entry `j` after one round at entry `i`.
parent-reparent_one :
    (k : Kernel) (cur i j : ℕ)
    → ((reparent_one k cur i).procs j).parent ≡ (
        if (i == j) && same_ptr (k.procs j).parent (some cur)
        then some k.initproc
        else (k.procs j).parent)
unfolding reparent_one
parent-reparent_one k cur i j = ground (
  arith,
  parent-wakeup1 (set_proc k i (record (k.procs i) { parent = some k.initproc }))
      (on_proc k.initproc) j,
)

runnable-reparent_one :
    (k : Kernel) (cur i j : ℕ)
    → (k.procs j).state ≡ runnable
    → ((reparent_one k cur i).procs j).state ≡ runnable
unfolding reparent_one
runnable-reparent_one k cur i j h = ground (
  arith,
  runnable-wakeup1 (set_proc k i (record (k.procs i) { parent = some k.initproc }))
      (on_proc k.initproc) j,
)

initproc-reparent : (n i : ℕ) (k : Kernel) (cur : ℕ) → (reparent n i k cur).initproc ≡ k.initproc
unfolding reparent
initproc-reparent zero i k cur = refl
initproc-reparent (suc n) i k cur =
    initproc-reparent n (suc i) (reparent_one k cur i) cur ∙ initproc-reparent_one k cur i

runnable-reparent :
    (n i : ℕ) (k : Kernel) (cur j : ℕ)
    → (k.procs j).state ≡ runnable
    → ((reparent n i k cur).procs j).state ≡ runnable
unfolding reparent
runnable-reparent zero i k cur j h = h
runnable-reparent (suc n) i k cur j h =
    runnable-reparent n (suc i) (reparent_one k cur i) cur j (runnable-reparent_one k cur i j h)

-- The parent of entry `j` after the rounds at the entries from `i` to `i + n`.
parent-reparent :
    (n i : ℕ) (k : Kernel) (cur j : ℕ)
    → cur ≢ k.initproc
    → ((reparent n i k cur).procs j).parent ≡ (
        if (leb i j && ltb j (i + n)) && same_ptr (k.procs j).parent (some cur)
        then some k.initproc
        else (k.procs j).parent)
unfolding reparent
parent-reparent zero i k cur j ne = ground arith
parent-reparent (suc n) i k cur j ne = ground (
  arith,
  parent-reparent n (suc i) (reparent_one k cur i) cur j,
  initproc-reparent_one k cur i,
  parent-reparent_one k cur i j,
)

-- The process table after `cur` has left it.
pub record Exited (k k' : Kernel) (cur : ℕ) : Type 0 where
  pub ended : IsZombie k' cur
  pub adopted : (j : ℕ) → j < nproc_max → IsChild k cur j → IsChild k' k.initproc j
  pub kept : (j : ℕ) → (¬ IsChild k cur j) → (k'.procs j).parent ≡ (k.procs j).parent
  pub woken :
      (p : ℕ)
      → (k.procs cur).parent ≡ some p
      → p < nproc_max
      → p ≢ cur
      → SleepsOn k (on_proc p) p
      → (k'.procs p).state ≡ runnable

module _ (k : Kernel) (cur : ℕ) (ne : cur ≢ k.initproc) where
  abbrev parent_woken : Kernel
  parent_woken = wakeup1 k (chan_of (k.procs cur).parent)

  parent-exit_table :
      (j : ℕ)
      → ((exit_table k cur).procs j).parent ≡ (
          if ltb j nproc_max && same_ptr (k.procs j).parent (some cur)
          then some k.initproc
          else (k.procs j).parent)
  unfolding exit_table
  parent-exit_table j = ground (
    arith,
    parent-reparent nproc_max 0 parent_woken cur j,
    parent-wakeup1 k (chan_of (k.procs cur).parent) j,
    initproc-wakeup1 k (chan_of (k.procs cur).parent),
  )

  woken-exit_table :
      (p : ℕ)
      → (k.procs cur).parent ≡ some p
      → p < nproc_max
      → p ≢ cur
      → SleepsOn k (on_proc p) p
      → ((exit_table k cur).procs p).state ≡ runnable
  unfolding exit_table
  woken-exit_table p e l ne' s =
      let w = (wakeup1-Woken k (on_proc p)).woken p l s in
      let r : (parent_woken.procs p).state ≡ runnable = rw (e, w) in
      ground (arith, runnable-reparent nproc_max 0 parent_woken cur p r)

  -- A process that is not `initproc` and exits becomes a zombie; its children become children of
  -- `initproc` and no other process gets another parent; its parent, if it sleeps in `wait`, can run.
  pub exit-Exited : Exited k (exit_table k cur) cur
  exit-Exited = record {
    ended = zombie_at;
    adopted = λ j l c. parent-exit_table j ∙ ground arith;
    kept = λ j nc. parent-exit_table j ∙ kept_if j nc;
    woken = woken-exit_table;
  }
    where
      zombie_at : IsZombie (exit_table k cur) cur
      zombie_at = unfold exit_table in ground arith

      kept_if :
          (j : ℕ)
          → (¬ IsChild k cur j)
          → (if ltb j nproc_max && same_ptr (k.procs j).parent (some cur)
              then some k.initproc
              else (k.procs j).parent)
            ≡ (k.procs j).parent
      kept_if j nc = elim (Bool-cases (same_ptr (k.procs j).parent (some cur))) [
        | inl t ↦ absurd (nc (same_ptr_eq (k.procs j).parent cur t))
        | inr f ↦ ground arith
      ]

  -- The parent of a process of the table that exits, if it is another process, finds a zombie child
  -- when it scans the table in `wait` after that exit.
  pub exit_seen_by_wait :
      (p : ℕ)
      → (k.procs cur).parent ≡ some p
      → cur < nproc_max
      → p ≢ cur
      → (j : ℕ) × (wait_scan nproc_max 0 (exit_table k cur) p false ≡ zombie_child j)
        × IsChild (exit_table k cur) p j
  exit_seen_by_wait p e l ne' =
      seen (wait_scan nproc_max 0 (exit_table k cur) p false)
        (wait_scan-Scanned nproc_max 0 (exit_table k cur) p false)
    where
      mine : IsChild (exit_table k cur) p cur
      mine = exit-Exited.kept cur (λ c. ground arith) ∙ e

      seen :
          (r : Found)
          → Scanned nproc_max 0 (exit_table k cur) p false r
          → (j : ℕ) × (r ≡ zombie_child j) × IsChild (exit_table k cur) p j
      seen (zombie_child j) s = (j, refl, s.2)
      seen (kids b) s = absurd (s.0 cur (omega arith) (omega arith) mine exit-Exited.ended)
