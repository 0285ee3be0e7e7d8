-- ===== src/Process/Family.antt =====
-- Parents and children in `exit` and `wait` of proc.c.
use dockv6_project.Base.{
  ℕ, zero, suc, ◌+◌, ◌≤◌, ◌<◌, ◌≡◌, ◌≢◌, ◌⊎◌, inl, inr, refl, sym, arith, Option, none, some, true,
  false, ℕ_discrete, Bool, Bool-cases, same_ptr, ◌∙◌, subst,
}
use dockv6_project.Kernel.{
  Kernel, ProcState, unused, embryo, sleeping, runnable, running, zombie, on_proc, is_zombie,
  nproc_max, set_proc,
}
use dockv6_project.Kalloc.{Kmem, Outcome, done, kfree}
use dockv6_project.Process.{
  Waited, reaped, no_children, asleep, panicked, cleared, give_back, reap_freed, after_scan,
  wait_round, wait_scan, Found, zombie_child, kids,
}
use dockv6_project.Process.Wakeup.{SleepsOn}

abbrev pub IsChild : Kernel → ℕ → ℕ → Type 0
IsChild k cur i = (k.procs i).parent ≡ some cur

abbrev pub IsZombie : Kernel → ℕ → Type 0
IsZombie k i = (k.procs i).state ≡ zombie

pub same_ptr_eq : (a : Option ℕ) (b : ℕ) → same_ptr a (some b) ≡ true → a ≡ some b
same_ptr_eq none b h = cc
same_ptr_eq (some a) b h = ground arith

same_ptr_refl : (b : ℕ) → same_ptr (some b) (some b) ≡ true
same_ptr_refl b = ground arith

zombie_of_test : (s : ProcState) → is_zombie s ≡ true → s ≡ zombie
zombie_of_test zombie h = refl
zombie_of_test _ h = cc

-- What the scan of the entries from `i` to `i + n` says of the children of `cur`.
abbrev pub Scanned : ℕ → ℕ → Kernel → ℕ → Bool → Found → Type 0
Scanned n i k cur h (zombie_child j) = (i ≤ j) × (j < i + n) × IsChild k cur j × IsZombie k j
Scanned n i k cur h (kids b) =
    ((j : ℕ) → i ≤ j → j < i + n → IsChild k cur j → ¬ IsZombie k j)
    × (b ≡ false → (h ≡ false) × ((j : ℕ) → i ≤ j → j < i + n → ¬ IsChild k cur j))
    × (b ≡ true → (h ≡ true) ⊎ ((j : ℕ) × (i ≤ j) × (j < i + n) × IsChild k cur j))

-- A fact of the entries from `i` on, from entry `i` and the rest.
at_or_after : (P : ℕ → Type 0) (i j : ℕ) → P i → (suc i ≤ j → P j) → i ≤ j → P j
at_or_after P i j here rest l = elim (ℕ_discrete j i) [
  | yes e ↦ subst P (sym e) here
  | no ne ↦ rest (omega arith)
]

Scanned-skip :
    (n i : ℕ) (k : Kernel) (cur : ℕ) (h : Bool) (r : Found)
    → (¬ IsChild k cur i)
    → Scanned n (suc i) k cur h r
    → Scanned (suc n) i k cur h r
Scanned-skip n i k cur h (zombie_child j) ne s = (omega arith, omega arith, s.2, s.3)
Scanned-skip n i k cur h (kids b) ne s = (
  λ j l m.
      at_or_after (λ x. IsChild k cur x → ¬ IsZombie k x) i j (λ c. absurd (ne c))
        (λ l'. s.0 j l' (omega arith)) l,
  λ e. (
    (s.1 e).0,
    λ j l m. at_or_after (λ x. ¬ IsChild k cur x) i j ne (λ l'. (s.1 e).1 j l' (omega arith)) l,
  ),
  λ e. elim (s.2 e) [ inl t ↦ inl t | inr (j, l, m, c) ↦ inr (j, omega arith, omega arith, c) ],
)

Scanned-child :
    (n i : ℕ) (k : Kernel) (cur : ℕ) (h : Bool) (r : Found)
    → IsChild k cur i
    → (¬ IsZombie k i)
    → Scanned n (suc i) k cur true r
    → Scanned (suc n) i k cur h r
Scanned-child n i k cur h (zombie_child j) c nz s = (omega arith, omega arith, s.2, s.3)
Scanned-child n i k cur h (kids b) c nz s = (
  λ j l m.
      at_or_after (λ x. IsChild k cur x → ¬ IsZombie k x) i j (λ _. nz)
        (λ l'. s.0 j l' (omega arith)) l,
  λ e. absurd (cc ((s.1 e).0)),
  λ e. inr (i, omega arith, omega arith, c),
)

not_zombie_of_test : (s : ProcState) → is_zombie s ≡ false → s ≢ zombie
not_zombie_of_test zombie h e = cc
not_zombie_of_test unused h e = cc
not_zombie_of_test embryo h e = cc
not_zombie_of_test sleeping h e = cc
not_zombie_of_test runnable h e = cc
not_zombie_of_test running h e = cc

-- The scan of `wait` finds a zombie child if there is one among the entries, and otherwise tells
-- whether there is a child.
pub wait_scan-Scanned :
    (n i : ℕ) (k : Kernel) (cur : ℕ) (h : Bool) → Scanned n i k cur h (wait_scan n i k cur h)
unfolding wait_scan
wait_scan-Scanned zero i k cur h =
    (λ j l m. absurd (omega arith), λ e. (e, λ j l m. absurd (omega arith)), λ e. inl e)
wait_scan-Scanned (suc n) i k cur h = elim (Bool-cases (same_ptr (k.procs i).parent (some cur))) [
  | inr other ↦
      rw (other, wait_scan)
        (Scanned-skip n i k cur h (wait_scan n (suc i) k cur h) (not_child other)
          (wait_scan-Scanned n (suc i) k cur h))
  | inl mine ↦
      let c = same_ptr_eq (k.procs i).parent cur mine in
      elim (Bool-cases (is_zombie (k.procs i).state)) [
        | inl dead ↦
            rw (mine, dead, wait_scan)
              (omega arith, omega arith, c, zombie_of_test (k.procs i).state dead)
        | inr alive ↦
            rw (mine, alive, wait_scan)
              (Scanned-child n i k cur h (wait_scan n (suc i) k cur true) c
                (not_zombie_of_test (k.procs i).state alive)
                (wait_scan-Scanned n (suc i) k cur true))
      ]
]
  where
    not_child : same_ptr (k.procs i).parent (some cur) ≡ false → ¬ IsChild k cur i
    not_child f c = ground (arith, same_ptr_refl cur)

-- How one round of `wait` ends, and when.
abbrev pub WaitEnds : Kernel → ℕ → Waited → Type 0
WaitEnds k cur (reaped pid k') =
    (j : ℕ) × (j < nproc_max)
    × IsChild k cur j
    × IsZombie k j
    × (pid ≡ (k.procs j).pid)
    × (k'.procs j ≡ cleared (k.procs j))
    × ((i : ℕ) → i ≢ j → k'.procs i ≡ k.procs i)
    × (k'.nextpid ≡ k.nextpid)
WaitEnds k cur no_children =
    ((j : ℕ) → j < nproc_max → IsChild k cur j → ¬ IsZombie k j)
    × (((j : ℕ) → j < nproc_max → ¬ IsChild k cur j) ⊎ ((k.procs cur).killed ≡ true))
WaitEnds k cur (asleep k') =
    ((j : ℕ) → j < nproc_max → IsChild k cur j → ¬ IsZombie k j)
    × ((j : ℕ) × (j < nproc_max) × IsChild k cur j)
    × ((k.procs cur).killed ≡ false)
    × SleepsOn k' (on_proc cur) cur
WaitEnds k cur panicked = (j : ℕ) × (j < nproc_max) × IsChild k cur j × IsZombie k j

module _ (e : ℕ) (freevm : Kmem → ℕ → Kmem) (k : Kernel) (cur : ℕ) where
  procs-give_back : (k1 : Kernel) (i : ℕ) → (give_back k1 cur).procs i ≡ k1.procs i
  procs-give_back k1 i = ground arith

  nextpid-give_back : (k1 : Kernel) → (give_back k1 cur).nextpid ≡ k1.nextpid
  nextpid-give_back k1 = ground arith

  abbrev freed : Kmem → ℕ → Kernel
  freed m j = set_proc (record k { kmem = freevm m (k.procs j).pgdir }) j (cleared (k.procs j))

  reap_freed-WaitEnds :
      (j : ℕ) (o : Outcome)
      → j < nproc_max
      → IsChild k cur j
      → IsZombie k j
      → WaitEnds k cur (reap_freed e freevm k cur j o)
  unfolding reap_freed
  reap_freed-WaitEnds j (done m) l c z = (
    j,
    l,
    c,
    z,
    refl,
    procs-give_back (freed m j) j ∙ ground arith,
    λ i ne. procs-give_back (freed m j) i ∙ ground arith,
    nextpid-give_back (freed m j),
  )
  reap_freed-WaitEnds j Outcome.panic l c z = (j, l, c, z)
  reap_freed-WaitEnds j Outcome.out_of_fuel l c z = (j, l, c, z)

  after_scan-WaitEnds :
      (r : Found) → Scanned nproc_max 0 k cur false r → WaitEnds k cur (after_scan e freevm k cur r)
  unfolding after_scan
  after_scan-WaitEnds (zombie_child j) s =
      reap_freed-WaitEnds j (kfree e k.kmem (k.procs j).kstack) (omega arith) s.2 s.3
  after_scan-WaitEnds (kids false) s = (
    λ j l c. s.0 j (omega arith) (omega arith) c,
    inl (λ j l. (s.1 refl).1 j (omega arith) (omega arith)),
  )
  after_scan-WaitEnds (kids true) s = elim (Bool-cases (k.procs cur).killed) [
    | inl dead ↦ rw (dead, after_scan) (λ j l c. s.0 j (omega arith) (omega arith) c, inr dead)
    | inr live ↦
        rw (live, after_scan)
          (
            λ j l c. s.0 j (omega arith) (omega arith) c,
            elim (s.2 refl) [
              | inl no_way ↦ absurd (cc no_way)
              | inr (j, l, m, c) ↦ (j, omega arith, c)
            ],
            live,
            (ground arith, ground arith),
          )
  ]

  -- A round of `wait` ends in one of three ways. It reaps a child that is a zombie, returns its pid,
  -- clears its entry and changes no other. It returns -1 when no child is a zombie, and there is no
  -- child or the caller was killed. Else it sleeps, with a child that is no zombie to wait for.
  -- (The code panics where `kfree` refuses the stack of the zombie that it reaps.)
  pub wait_round-WaitEnds : WaitEnds k cur (wait_round e freevm k cur)
  unfolding wait_round
  wait_round-WaitEnds =
      after_scan-WaitEnds (wait_scan nproc_max 0 k cur false)
        (wait_scan-Scanned nproc_max 0 k cur false)
