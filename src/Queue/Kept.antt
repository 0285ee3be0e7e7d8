-- ===== src/Queue/Kept.antt =====
-- The calls on the priority queue of proc.c change no field of a process but `next` and `priority`.
use dockv6_project.Base.{
  ℕ, zero, suc, ◌≡◌, inl, inr, refl, arith, ◌∙◌, Option, none, some, ◌==◌, Bool-cases, Option-cases,
  find_first_cases, ltb, if◌then◌else◌,
}
use dockv6_project.Base.Int.{ℤ, pos}
use dockv6_project.Kernel.{Kernel, Proc, nbin, nproc_max}
use dockv6_project.Queue.{
  Result, ok, fault, out_of_fuel, pqueue_enqueue, append_to_bin, set_next, ancestry, unlink_behind,
  search_bins, enqueue_found, move_to_bin, after_walk, prio_set,
}

-- A process with its place in the queue taken out.
abbrev pub unqueued : Proc → Proc
unqueued p = record p { next = none; priority = 0 }

-- Only the queue has changed.
pub record Kept (k k' : Kernel) : Type 0 where
  pub procs : (i : ℕ) → unqueued (k'.procs i) ≡ unqueued (k.procs i)
  pub containers : k'.containers ≡ k.containers
  pub nextpid : k'.nextpid ≡ k.nextpid
  pub kmem : k'.kmem ≡ k.kmem

pub Kept-refl : (k : Kernel) → Kept k k
Kept-refl k = record { procs = λ i. refl; containers = refl; nextpid = refl; kmem = refl }

pub Kept-trans : {k k' k'' : Kernel} → Kept k k' → Kept k' k'' → Kept k k''
Kept-trans a b = record {
  procs = λ i. b.procs i ∙ a.procs i;
  containers = b.containers ∙ a.containers;
  nextpid = b.nextpid ∙ a.nextpid;
  kmem = b.kmem ∙ a.kmem;
}

set_next-Kept : (k : Kernel) (p : ℕ) (q : Option ℕ) → Kept k (set_next k p q)
set_next-Kept k p q = record {
  procs = λ i. ground arith;
  containers = refl;
  nextpid = refl;
  kmem = refl;
}

pub enqueue-Kept : (k : Kernel) (p n : ℕ) → Kept k (pqueue_enqueue k p n)
unfolding pqueue_enqueue append_to_bin
enqueue-Kept k p n = record {
  procs = λ i. ground arith;
  containers = ground arith;
  nextpid = ground arith;
  kmem = ground arith;
}

abbrev pub KeptBy : {A : Type 0} → Kernel → Result A → Type 0
KeptBy k (ok r k') = Kept k k'
KeptBy k fault = Unit
KeptBy k out_of_fuel = Unit

unlink_behind-Kept : (fuel : ℕ) (k : Kernel) (p pid : ℕ) → KeptBy k (unlink_behind fuel k p pid)
unfolding unlink_behind
unlink_behind-Kept zero k p pid = tt
unlink_behind-Kept (suc fuel) k p pid = elim (Option-cases (k.procs p).next) [
  | inl e ↦ rw (e, unlink_behind) (Kept-refl k)
  | inr (q, e) ↦ elim (Bool-cases ((k.procs q).pid == pid)) [
    | inl t ↦ rw (e, t, unlink_behind) (set_next-Kept k p (k.procs q).next)
    | inr f ↦ rw (e, f, unlink_behind) (unlink_behind-Kept fuel k q pid)
  ]
]

KeptBy-trans : {A : Type 0} {k k' : Kernel} (r : Result A) → Kept k k' → KeptBy k' r → KeptBy k r
KeptBy-trans (ok r k'') a b = Kept-trans a b
KeptBy-trans fault a b = tt
KeptBy-trans out_of_fuel a b = tt

-- The rest of a bin has been searched.
abbrev next_bin : ℕ → ℕ → ℕ → ℕ → Option ℕ → Result (Option ℕ) → Result (Option ℕ)
next_bin fuel n i pid found (ok (some q) k') = search_bins fuel n (suc i) k' pid (some q)
next_bin fuel n i pid found (ok none k') = search_bins fuel n (suc i) k' pid found
next_bin fuel n i pid found fault = fault
next_bin fuel n i pid found out_of_fuel = out_of_fuel

search_bins-Kept :
    (fuel n i : ℕ) (k : Kernel) (pid : ℕ) (found : Option ℕ)
    → KeptBy k (search_bins fuel n i k pid found)
unfolding search_bins
search_bins-Kept fuel zero i k pid found = Kept-refl k
search_bins-Kept fuel (suc n) i k pid found = elim (Option-cases (k.bins i).head) [
  | inl e ↦ rw (e, search_bins) (search_bins-Kept fuel n (suc i) k pid found)
  | inr (p, e) ↦ elim (Bool-cases ((k.procs p).pid == pid)) [
    | inl t ↦ rw (e, t, search_bins) (Kept-refl k)
    | inr f ↦
        rw (e, f, search_bins)
          (behind (unlink_behind fuel k p pid) (unlink_behind-Kept fuel k p pid)
            (λ k' q. search_bins-Kept fuel n (suc i) k' pid q))
  ]
]
  where
    behind :
        (r : Result (Option ℕ))
        → KeptBy k r
        → ((k' : Kernel) (q : Option ℕ) → KeptBy k' (search_bins fuel n (suc i) k' pid q))
        → KeptBy k (next_bin fuel n i pid found r)
    behind (ok (some q) k') a rest =
        KeptBy-trans (search_bins fuel n (suc i) k' pid (some q)) a (rest k' (some q))
    behind (ok none k') a rest =
        KeptBy-trans (search_bins fuel n (suc i) k' pid found) a (rest k' found)
    behind fault a rest = tt
    behind out_of_fuel a rest = tt

enqueue_found-Kept :
    (n : ℕ) (k : Kernel) (r : Result (Option ℕ)) → KeptBy k r → KeptBy k (enqueue_found n r)
unfolding enqueue_found
enqueue_found-Kept n k (ok (some p) k') a = elim (Bool-cases (ltb n nbin)) [
  | inl t ↦ rw t (Kept-trans a (enqueue-Kept k' p n))
  | inr f ↦ rw f tt
]
enqueue_found-Kept n k (ok none k') a = tt
enqueue_found-Kept n k fault a = tt
enqueue_found-Kept n k out_of_fuel a = tt

after_walk-Kept :
    (fuel : ℕ) (k : Kernel) (p pid n : ℕ) (r : Result ℤ) → KeptBy k (after_walk fuel k p pid n r)
unfolding after_walk move_to_bin
after_walk-Kept fuel k p pid n (ok (pos r) k') = elim (Bool-cases (n == (k.procs p).priority)) [
  | inl t ↦ rw (t, after_walk) (Kept-refl k)
  | inr f ↦
      rw (f, after_walk)
        (enqueue_found-Kept n k (search_bins fuel nbin 0 k pid none)
          (search_bins-Kept fuel nbin 0 k pid none))
]
after_walk-Kept fuel k p pid n (ok (ℤ.negsuc r) k') = Kept-refl k
after_walk-Kept fuel k p pid n fault = tt
after_walk-Kept fuel k p pid n out_of_fuel = tt

pub prio_set-Kept : (fuel : ℕ) (k : Kernel) (cur pid n : ℕ) → KeptBy k (prio_set fuel k cur pid n)
unfolding prio_set
prio_set-Kept fuel k cur pid n = elim (find_first_cases nproc_max 0 (λ i. (k.procs i).pid == pid)) [
  | inl (e, clear) ↦ rw (e, prio_set) tt
  | inr (p, e, at) ↦ elim (Bool-cases (ltb n (k.procs p).priority)) [
    | inl t ↦ rw (e, t, prio_set) (Kept-refl k)
    | inr f ↦
        rw (e, f, prio_set)
          (after_walk-Kept fuel k p pid n
            (if pid == (k.procs cur).pid then ok (pos 0) k else ancestry fuel k cur p))
  ]
]
