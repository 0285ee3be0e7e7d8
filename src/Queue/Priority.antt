-- ===== src/Queue/Priority.antt =====
-- Who may change a priority by `prio_set` of proc.c, and which way.
use dockv6_project.Base.{
  ℕ, zero, suc, ◌≤◌, ◌<◌, ◌≡◌, ◌≢◌, ◌⊎◌, refl, arith, none, some, ◌==◌, false, ==_iff, FirstAt,
  NoneIn,
}
use dockv6_project.Base.Int.{ℤ, pos}
use dockv6_project.Kernel.{Kernel, nproc_max, nbin}
use dockv6_project.Queue.Moves.{Moved}
use dockv6_project.Queue.{Result, ok, fault, out_of_fuel, ancestry, search_bins}

-- The process `cur` is met on the way up from `t`, before `initproc` is.
pub data Ancestor (k : Kernel) (cur : ℕ) : ℕ → Type 0 where
  child : {t : ℕ} → (k.procs t).parent ≡ some cur → Ancestor k cur t
  further :
      {t : ℕ} (u : ℕ)
      → (k.procs t).parent ≡ some u
      → u ≢ cur
      → u ≢ k.initproc
      → Ancestor k cur u
      → Ancestor k cur t

abbrev depth : {k : Kernel} {cur t : ℕ} → Ancestor k cur t → ℕ
depth (child e) = 0
depth (further u e ne ne' a) = suc (depth a)

-- A process without a parent is met on the way up, before the caller and `initproc` are.
pub data Orphaned (k : Kernel) (cur : ℕ) : ℕ → Type 0 where
  orphan : {t : ℕ} → (k.procs t).parent ≡ none → Orphaned k cur t
  above :
      {t : ℕ} (u : ℕ)
      → (k.procs t).parent ≡ some u
      → u ≢ cur
      → u ≢ k.initproc
      → Orphaned k cur u
      → Orphaned k cur t

-- What the answer of the walk means.
abbrev Walked : Kernel → ℕ → ℕ → Result ℤ → Type 0
Walked k cur t (ok (pos r) k') = Ancestor k cur t
Walked k cur t (ok (ℤ.negsuc r) k') = Unit
Walked k cur t fault = Orphaned k cur t
Walked k cur t out_of_fuel = Unit

not-==_lem : (a b : ℕ) → a ≢ b → (a == b) ≡ false
not-==_lem a b h = ground arith

-- The walk of `prio_set` from a process up to the caller returns 0 for an ancestor of it with only
-- processes other than the caller and `initproc` between, with fuel above the number of those.
pub ancestry_total :
    (fuel : ℕ) (k : Kernel) (cur t : ℕ) (a : Ancestor k cur t)
    → depth a < fuel
    → ancestry fuel k cur t ≡ ok (pos 0) k
unfolding ancestry
ancestry_total zero k cur t a l = absurd (omega arith)
ancestry_total (suc fuel) k cur t (child e) l = rw (e, ancestry, (==_iff cur cur).1 refl)
ancestry_total (suc fuel) k cur t (further u e ne ne' a) l =
    rw (e, ancestry, not-==_lem u cur ne, not-==_lem u k.initproc ne')
      (ancestry_total fuel k cur u a (omega arith))

-- What the calling process needs for the answer that it gets.
pub record Allows (k : Kernel) (cur pid n : ℕ) (p : ℕ) : Type 0 where
  pub target : FirstAt nproc_max 0 (λ i. (k.procs i).pid == pid) p
  pub lowers : (k.procs p).priority ≤ n
  pub entitled : (pid ≡ (k.procs cur).pid) ⊎ Ancestor k cur p

-- The queue that has no such process, or the table.
abbrev pub Unqueued : ℕ → Kernel → ℕ → Type 0
Unqueued fuel k pid = (k' : Kernel) × (search_bins fuel nbin 0 k pid none ≡ ok none k')

-- Why a call reads behind a table or through a null pointer.
abbrev pub FaultCause : ℕ → Kernel → ℕ → ℕ → ℕ → Type 0
FaultCause fuel k cur pid n =
    NoneIn nproc_max 0 (λ i. (k.procs i).pid == pid)
    ⊎ ((p : ℕ) × FirstAt nproc_max 0 (λ i. (k.procs i).pid == pid) p
        × ((k.procs p).priority ≤ n)
        × (Orphaned k cur p ⊎ ((nbin ≤ n) ⊎ Unqueued fuel k pid)))

abbrev pub Allowed : ℕ → Kernel → ℕ → ℕ → ℕ → Result ℤ → Type 0
Allowed fuel k cur pid n (ok (pos r) k') =
    (p : ℕ) × Allows k cur pid n p × (((n ≡ (k.procs p).priority) × (k' ≡ k)) ⊎ Moved k pid n k')
Allowed fuel k cur pid n (ok (ℤ.negsuc r) k') = k' ≡ k
Allowed fuel k cur pid n fault = FaultCause fuel k cur pid n
Allowed fuel k cur pid n out_of_fuel = Unit
