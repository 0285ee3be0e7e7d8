-- ===== src/Containers/Child.antt =====
-- The child that `fork` of proc.c makes.
use dockv6_project.Base.{
  ℕ, ◌⊎◌, ◌<◌, subst, ltb, ltb→lt, ==_iff, ◌+◌, ◌≡◌, ◌≢◌, inl, inr, refl, sym, arith, ◌∙◌, ap,
  Option, none, some, ◌==◌, true, Bool-cases, Option-cases, FirstAt, List,
}
use dockv6_project.CString.{View}
use dockv6_project.Kalloc.{Kmem, Outcome, done, kfree}
use dockv6_project.Kernel.{
  Kernel, Proc, ProcState, Container, unused, embryo, runnable, running, is_unused, nproc_max,
}
use dockv6_project.Mutex.{length}
use dockv6_project.Queue.{fault, out_of_fuel, prio_set}
use dockv6_project.Queue.Kept.{unqueued}
use dockv6_project.Process.{allocproc}
use dockv6_project.Process.Alloc.{Allocs, Allocated, allocproc-Allocs}
use dockv6_project.Containers.{
  Forked, refused, forked, panicked, faulted, is_cm, child_name, copy_process, set_prios,
  undo_alloc, fill_child, after_alloc,
}
use dockv6_project.Containers.Fork.{
  Elsewhere, AllocsOnly, allocproc-AllocsOnly, Ready, set_prios-Ready,
}

-- The entry `i` as the child of `cur`.
pub record Child (k k' : Kernel) (cur i : ℕ) : Type 0 where
  pub first : FirstAt nproc_max 0 (λ j. is_unused (k.procs j).state) i
  pub pid : (k'.procs i).pid ≡ k.nextpid
  pub state : (k'.procs i).state ≡ runnable
  pub parent : (k'.procs i).parent ≡ some cur
  pub size : (k'.procs i).sz ≡ (k.procs cur).sz
  pub container : (k'.procs i).container ≡ (k.procs cur).container
  pub container_id : (k'.procs i).container_id ≡ (k.procs cur).container_id
  pub others : (j : ℕ) → i ≢ j → unqueued (k'.procs j) ≡ unqueued (k.procs j)

-- The name of the child of a process called "cm" cannot be copied.
abbrev pub NameFault : (ℕ → List ℕ) → Proc → Type 0
NameFault init parent =
    (is_cm parent.name ≡ true)
    × ((parent.container ≡ none) ⊎ ((c : ℕ) × (parent.container ≡ some c) × (16 < length (init c))))

-- A call of `prio_set` for the new process goes wrong, when of the others only the places in the
-- queue have changed.
abbrev pub ChildFault : ℕ → Kernel → ℕ → Type 0
ChildFault fuel k cur =
    (i : ℕ) × (k1 : Kernel) × (n : ℕ) × ((j : ℕ)
      → i ≢ j
      → unqueued (k1.procs j) ≡ unqueued (k.procs j))
    × ((prio_set fuel k1 cur k.nextpid n ≡ fault)
        ⊎ (prio_set fuel k1 cur k.nextpid n ≡ out_of_fuel))

child_name-NameFault :
    (init : ℕ → List ℕ) (parent np : Proc)
    → child_name init parent np ≡ none
    → NameFault init parent
unfolding child_name
child_name-NameFault init parent np e = elim (Bool-cases (is_cm parent.name)) [
  | inr other ↦ absurd (ground (arith, e, other))
  | inl cm ↦ elim (Option-cases parent.container) [
    | inl null ↦ (cm, inl null)
    | inr (c, at) ↦ elim (Bool-cases (ltb 16 (length (init c)))) [
      | inl long ↦ (cm, inr (c, at, ltb→lt 16 (length (init c)) long))
      | inr fits ↦ absurd (ground (arith, e, cm, at, fits))
    ]
  ]
]

module _ (copyuvm : Kmem → ℕ → ℕ → ℕ × Kmem) (init : ℕ → List ℕ) (fuel : ℕ) where
  -- How `fork` ends behind the quota of the container.
  abbrev FillEnds : Kernel → ℕ → Forked → Type 0
  FillEnds k cur (refused k') = (j : ℕ) → (k'.procs j).state ≡ (k.procs j).state
  FillEnds k cur (forked pid i k') =
      (pid ≡ k.nextpid) × Child k k' cur i × (k'.containers ≡ k.containers)
  FillEnds k cur panicked = (m : Kmem) × ((copyuvm m (k.procs cur).pgdir (k.procs cur).sz).0 ≡ 0)
  FillEnds k cur faulted = NameFault init (k.procs cur) ⊎ ChildFault fuel k cur

unused_of : (s : ProcState) → is_unused s ≡ true → s ≡ unused
unused_of unused h = refl
unused_of _ h = cc

module _ (kernel_end : ℕ) (copyuvm : Kmem → ℕ → ℕ → ℕ × Kmem) (init : ℕ → List ℕ) (fuel : ℕ)
    (k k2 : Kernel) (cur i : ℕ) (run : (k.procs cur).state ≡ running) (a : Allocated k k2 i embryo)
    (only : Elsewhere k k2 i) where
  apart : i ≢ cur
  apart e =
      let idle : (k.procs cur).state ≡ unused =
        rw (← e) (unused_of (k.procs i).state a.first.passes) in
      absurd (cc (sym run ∙ idle))

  caller : unqueued (k2.procs cur) ≡ unqueued (k.procs cur)
  caller = only.procs cur apart

  undo-FillEnds :
      (o : Outcome)
      → ((m : Kmem) × ((copyuvm m (k.procs cur).pgdir (k.procs cur).sz).0 ≡ 0))
      → FillEnds copyuvm init fuel k cur (undo_alloc k2 i o)
  unfolding undo_alloc
  undo-FillEnds (done m) failed =
      λ j. ground (arith, a.state j, unused_of (k.procs i).state a.first.passes)
  undo-FillEnds Outcome.panic failed = failed
  undo-FillEnds Outcome.out_of_fuel failed = failed

  Ready-FillEnds :
      (pgdir : ℕ) (m : Kmem) (name : View) (r : Forked)
      → Ready fuel (copy_process k2 cur i pgdir m name) cur i r
      → FillEnds copyuvm init fuel k cur r
  Ready-FillEnds pgdir m name (refused k') b = elim b [ ]
  Ready-FillEnds pgdir m name (forked pid j k') (k4, kept, e, same, now) =
      let k3 = copy_process k2 cur i pgdir m name in
      let at_i : unqueued (k4.procs i) ≡ unqueued (k3.procs i) = kept.procs i in
      rw (same, now)
        (
          e ∙ ground (arith, a.pid i),
          record {
            first = a.first;
            pid = ground (arith, ap (λ (x : Proc). x.pid) at_i, a.pid i);
            state = ground arith;
            parent = ground (arith, ap (λ (x : Proc). x.parent) at_i);
            size = ground (arith, ap (λ (x : Proc). x.sz) at_i, ap (λ (x : Proc). x.sz) caller);
            container =
                ground (
                  arith,
                  ap (λ (x : Proc). x.container) at_i,
                  ap (λ (x : Proc). x.container) caller,
                );
            container_id = ground (
              arith,
              ap (λ (x : Proc). x.container_id) at_i,
              ap (λ (x : Proc). x.container_id) caller,
            );
            others = λ j' ne. ground (arith, kept.procs j', only.procs j' ne);
          },
          kept.containers ∙ only.containers,
        )
  Ready-FillEnds pgdir m name panicked b = elim b [ ]
  Ready-FillEnds pgdir m name faulted (k1, n, kept, e) =
      let k3 = copy_process k2 cur i pgdir m name in
      let pid : (k3.procs i).pid ≡ k.nextpid = ground (arith, a.pid i) in
      inr (
        i,
        k1,
        n,
        (λ j ne. ground (arith, kept.procs j, only.procs j ne)),
        subst (λ x. (prio_set fuel k1 cur x n ≡ fault) ⊎ (prio_set fuel k1 cur x n ≡ out_of_fuel))
            pid e,
      )

  fill_child-FillEnds :
      FillEnds copyuvm init fuel k cur (fill_child kernel_end copyuvm init fuel k2 cur i)
  unfolding fill_child
  fill_child-FillEnds =
      let r = copyuvm k2.kmem (k2.procs cur).pgdir (k2.procs cur).sz in
      elim (Bool-cases (r.0 == 0)) [
        | inl t ↦
            let same : (copyuvm k2.kmem (k.procs cur).pgdir (k.procs cur).sz).0 ≡ 0 =
              subst (λ (x : Proc). (copyuvm k2.kmem x.pgdir x.sz).0 ≡ 0) caller
                ((==_iff r.0 0).0 t) in
            rw (t, fill_child)
              (undo-FillEnds (kfree kernel_end r.1 (k2.procs i).kstack) (k2.kmem, same))
        | inr f ↦ elim (Option-cases (child_name init (k2.procs cur) (k2.procs i))) [
          | inl e ↦
              rw (f, e, fill_child)
                (inl (
                  subst (λ (x : Proc). NameFault init x) caller
                    (child_name-NameFault init (k2.procs cur) (k2.procs i) e)))
          | inr (name, e) ↦
              let k3 = copy_process k2 cur i r.0 r.1 name in
              rw (f, e, fill_child)
                (Ready-FillEnds r.0 r.1 name (set_prios fuel k3 cur i)
                  (set_prios-Ready fuel k3 cur i))
        ]
      ]

module _ (kernel_end : ℕ) (copyuvm : Kmem → ℕ → ℕ → ℕ × Kmem) (init : ℕ → List ℕ) (fuel : ℕ)
    (k : Kernel) (cur : ℕ) (run : (k.procs cur).state ≡ running) where
  after_alloc-FillEnds :
      (r : Option ℕ × Kernel)
      → Allocs k r
      → AllocsOnly k r
      → FillEnds copyuvm init fuel k cur (after_alloc kernel_end copyuvm init fuel cur r)
  unfolding after_alloc
  after_alloc-FillEnds (some i, k2) a only =
      fill_child-FillEnds kernel_end copyuvm init fuel k k2 cur i run a only
  after_alloc-FillEnds (none, k2) (inl (clear, e)) only =
      λ j. ap (λ (x : Kernel). (x.procs j).state) e
  after_alloc-FillEnds (none, k2) (inr (i, a)) only =
      λ j. ground (arith, a.state j, unused_of (k.procs i).state a.first.passes)

  pub alloc-FillEnds :
      (n : ℕ)
      → FillEnds copyuvm init fuel k cur
          (after_alloc kernel_end copyuvm init fuel cur (allocproc k n))
  alloc-FillEnds n =
      after_alloc-FillEnds (allocproc k n) (allocproc-Allocs k n) (allocproc-AllocsOnly k n)

-- The quota of the caller's container is one lower than it was, and was not 0.
abbrev pub Within : Kernel → Kernel → ℕ → Type 0
Within k k' cur =
    (c : ℕ)
    → (k.procs cur).container ≡ some c
    → (k.procs cur).container_id ≢ 0
    → ((k.containers c).nproc ≢ 0) × ((k'.containers c).nproc + 1 ≡ (k.containers c).nproc)

abbrev pub ForkEnds : (Kmem → ℕ → ℕ → ℕ × Kmem) → (ℕ → List ℕ) → ℕ → Kernel → ℕ → Forked → Type 0
ForkEnds copyuvm init fuel k cur (refused k') = (j : ℕ) → (k'.procs j).state ≡ (k.procs j).state
ForkEnds copyuvm init fuel k cur (forked pid i k') =
    (pid ≡ k.nextpid) × Child k k' cur i × Within k k' cur
ForkEnds copyuvm init fuel k cur panicked =
    (m : Kmem) × ((copyuvm m (k.procs cur).pgdir (k.procs cur).sz).0 ≡ 0)
ForkEnds copyuvm init fuel k cur faulted =
    (((k.procs cur).container_id ≢ 0) × ((k.procs cur).container ≡ none))
    ⊎ (NameFault init (k.procs cur) ⊎ ChildFault fuel k cur)

abbrev with_containers : Kernel → (ℕ → Container) → Kernel
with_containers k cs = record k { containers = cs }
