-- ===== src/Containers/Fork.antt =====
-- What `fork` of proc.c does to the process table.
use dockv6_project.Base.{
  ℕ, ◌⊎◌, subst, ◌≡◌, ◌≢◌, inl, inr, refl, arith, ◌∙◌, ap, Option, none, some, ◌==◌, Bool-cases,
  find_first_cases, ltb, ◌&&◌, not,
}
use dockv6_project.Base.Int.{ℤ, pos}
use dockv6_project.Kalloc.{kalloc}
use dockv6_project.Kernel.{Kernel, Proc, runnable, is_unused, nproc_max}
use dockv6_project.Queue.{Result, ok, fault, out_of_fuel, prio_set}
use dockv6_project.Queue.Kept.{
  unqueued, Kept, Kept-refl, Kept-trans, enqueue-Kept, KeptBy, prio_set-Kept,
}
use dockv6_project.Process.{allocproc, take_entry, begin_entry, set_state}
use dockv6_project.Containers.{
  Forked, refused, forked, panicked, faulted, make_ready, second_prio, set_prios, is_cm,
}

-- What `allocproc` leaves of the other entries and of the containers.
pub record Elsewhere (k k' : Kernel) (i : ℕ) : Type 0 where
  pub procs : (j : ℕ) → i ≢ j → unqueued (k'.procs j) ≡ unqueued (k.procs j)
  pub containers : k'.containers ≡ k.containers

abbrev pub AllocsOnly : Kernel → Option ℕ × Kernel → Type 0
AllocsOnly k (some i, k') = Elsewhere k k' i
AllocsOnly k (none, k') = Unit

take_entry-Elsewhere : (k : Kernel) (i n : ℕ) → Elsewhere k (take_entry k i n) i
unfolding take_entry
take_entry-Elsewhere k i n =
    let kept = enqueue-Kept (begin_entry k i) i n in
    record { procs = λ j ne. ground (arith, kept.procs j); containers = kept.containers }

pub allocproc-AllocsOnly : (k : Kernel) (n : ℕ) → AllocsOnly k (allocproc k n)
unfolding allocproc
allocproc-AllocsOnly k n = elim (find_first_cases nproc_max 0 (λ i. is_unused (k.procs i).state)) [
  | inl (e, clear) ↦ rw (e, allocproc) tt
  | inr (i, e, at) ↦
      let k1 = take_entry k i n in
      let only = take_entry-Elsewhere k i n in
      elim (Bool-cases ((kalloc k1.kmem).0 == 0)) [
        | inl t ↦ rw (e, t, allocproc) tt
        | inr f ↦
            rw (e, f, allocproc)
              (record {
                procs = λ j ne. ground (arith, only.procs j);
                containers = only.containers;
              })
      ]
]

-- A call of `prio_set` for the child `i` fails or does not end, when only the queue has changed.
abbrev pub PrioFault : ℕ → Kernel → ℕ → ℕ → Type 0
PrioFault fuel k cur i =
    (k1 : Kernel) × (n : ℕ) × Kept k k1
    × ((prio_set fuel k1 cur (k.procs i).pid n ≡ fault)
        ⊎ (prio_set fuel k1 cur (k.procs i).pid n ≡ out_of_fuel))

-- `set_prios` of the entry `i` makes it runnable, and else only changes the queue.
abbrev pub Ready : ℕ → Kernel → ℕ → ℕ → Forked → Type 0
Ready fuel k cur i (refused k') = ⊥
Ready fuel k cur i (forked pid j k') =
    (k1 : Kernel) × Kept k k1 × (pid ≡ (k.procs i).pid) × (j ≡ i) × (k' ≡ set_state k1 i runnable)
Ready fuel k cur i panicked = ⊥
Ready fuel k cur i faulted = PrioFault fuel k cur i

same_pid : (p q : Proc) → unqueued p ≡ unqueued q → p.pid ≡ q.pid
same_pid p q e = ap (λ (x : Proc). x.pid) e

-- A failure of `prio_set` is one for the child.
abbrev Explained : ℕ → Kernel → ℕ → ℕ → Result ℤ → Type 0
Explained fuel k cur i (ok r k') = Unit
Explained fuel k cur i fault = PrioFault fuel k cur i
Explained fuel k cur i out_of_fuel = PrioFault fuel k cur i

module _ (fuel : ℕ) where
  prio_set-Explained :
      (k : Kernel) (cur i n : ℕ) → Explained fuel k cur i (prio_set fuel k cur (k.procs i).pid n)
  prio_set-Explained k cur i n = go (prio_set fuel k cur (k.procs i).pid n) refl
    where
      go : (r : Result ℤ) → prio_set fuel k cur (k.procs i).pid n ≡ r → Explained fuel k cur i r
      go (ok r k') e = tt
      go fault e = (k, n, Kept-refl k, inl e)
      go out_of_fuel e = (k, n, Kept-refl k, inr e)

  make_ready-Ready :
      (k : Kernel) (cur i : ℕ) (r : Result ℤ)
      → KeptBy k r
      → Explained fuel k cur i r
      → Ready fuel k cur i (make_ready i r)
  unfolding make_ready
  make_ready-Ready k cur i (ok r k') a x =
      (k', a, same_pid (k'.procs i) (k.procs i) (a.procs i), refl, refl)
  make_ready-Ready k cur i fault a x = x
  make_ready-Ready k cur i out_of_fuel a x = x

  Ready-later :
      (k k' : Kernel) (cur i : ℕ) (r : Forked)
      → Kept k k'
      → Ready fuel k' cur i r
      → Ready fuel k cur i r
  Ready-later k k' cur i (refused k2) a b = elim b [ ]
  Ready-later k k' cur i (forked pid j k2) a (k1, b, e, same, now) =
      (k1, Kept-trans a b, e ∙ same_pid (k'.procs i) (k.procs i) (a.procs i), same, now)
  Ready-later k k' cur i panicked a b = b
  Ready-later k k' cur i faulted a (k1, n, b, e) = (
    k1,
    n,
    Kept-trans a b,
    subst (λ x. (prio_set fuel k1 cur x n ≡ fault) ⊎ (prio_set fuel k1 cur x n ≡ out_of_fuel))
        (same_pid (k'.procs i) (k.procs i) (a.procs i)) e,
  )

  second_prio-Ready :
      (k : Kernel) (cur i : ℕ) (r : Result ℤ)
      → KeptBy k r
      → Explained fuel k cur i r
      → Ready fuel k cur i (second_prio fuel cur i r)
  unfolding second_prio
  second_prio-Ready k cur i (ok r k') a x =
      let n = (k'.procs cur).priority in
      let again = prio_set fuel k' cur (k'.procs i).pid n in
      Ready-later k k' cur i (make_ready i again) a (
        make_ready-Ready k' cur i again (prio_set-Kept fuel k' cur (k'.procs i).pid n)
          (prio_set-Explained k' cur i n))
  second_prio-Ready k cur i fault a x = x
  second_prio-Ready k cur i out_of_fuel a x = x

  pub set_prios-Ready : (k : Kernel) (cur i : ℕ) → Ready fuel k cur i (set_prios fuel k cur i)
  unfolding set_prios
  set_prios-Ready k cur i =
      elim (Bool-cases (ltb 1 (k.procs cur).pid && not (is_cm (k.procs i).name))) [
        | inl t ↦
            rw (t, set_prios)
              (second_prio-Ready k cur i (prio_set fuel k cur (k.procs i).pid 1)
                (prio_set-Kept fuel k cur (k.procs i).pid 1) (prio_set-Explained k cur i 1))
        | inr f ↦ rw (f, set_prios) (second_prio-Ready k cur i (ok (pos 0) k) (Kept-refl k) tt)
      ]
