-- ===== src/Process/Alloc.antt =====
-- What `allocproc` of proc.c gives a new process, and what it does to the queue of its bin.
use dockv6_project.Base.{
  ℕ, ◌+◌, ◌≡◌, ◌⊎◌, inl, inr, refl, arith, Option, none, some, ◌==◌, Bool-cases, if◌then◌else◌,
  find_first_cases, FirstAt, NoneIn,
}
use dockv6_project.Kalloc.{kalloc}
use dockv6_project.Kernel.{Kernel, ProcState, unused, embryo, is_unused, nproc_max}
use dockv6_project.Queue.{pqueue_enqueue, append_to_bin}
use dockv6_project.Process.{allocproc, take_entry, begin_entry}

module _ (k : Kernel) (p n i : ℕ) where
  pub pid-enqueue : ((pqueue_enqueue k p n).procs i).pid ≡ (k.procs i).pid
  unfolding pqueue_enqueue append_to_bin
  pid-enqueue = ground arith

  pub state-enqueue : ((pqueue_enqueue k p n).procs i).state ≡ (k.procs i).state
  unfolding pqueue_enqueue append_to_bin
  state-enqueue = ground arith

module _ (k : Kernel) (p n : ℕ) where
  pub nextpid-enqueue : (pqueue_enqueue k p n).nextpid ≡ k.nextpid
  unfolding pqueue_enqueue append_to_bin
  nextpid-enqueue = ground arith

  pub kmem-enqueue : (pqueue_enqueue k p n).kmem ≡ k.kmem
  unfolding pqueue_enqueue append_to_bin
  kmem-enqueue = ground arith

module _ (k : Kernel) (i n : ℕ) where
  pub pid-take_entry :
      (j : ℕ) → ((take_entry k i n).procs j).pid ≡ (if i == j then k.nextpid else (k.procs j).pid)
  unfolding take_entry
  pid-take_entry j =
      ground (arith, pid-enqueue (begin_entry k i) i n j, pid-enqueue (begin_entry k i) i n i)

  pub state-take_entry :
      (j : ℕ) → ((take_entry k i n).procs j).state ≡ (if i == j then embryo else (k.procs j).state)
  unfolding take_entry
  state-take_entry j =
      ground (arith, state-enqueue (begin_entry k i) i n j, state-enqueue (begin_entry k i) i n i)

  pub nextpid-take_entry : (take_entry k i n).nextpid ≡ k.nextpid + 1
  unfolding take_entry
  nextpid-take_entry = nextpid-enqueue (begin_entry k i) i n

-- What a call of `allocproc` does to the table: the entry that it took, the first that was unused,
-- as an embryo with the next pid, or that there was none or no page for its stack.
pub record Allocated (k k' : Kernel) (i : ℕ) (s : ProcState) : Type 0 where
  pub first : FirstAt nproc_max 0 (λ j. is_unused (k.procs j).state) i
  pub pid : (j : ℕ) → (k'.procs j).pid ≡ (if i == j then k.nextpid else (k.procs j).pid)
  pub state : (j : ℕ) → (k'.procs j).state ≡ (if i == j then s else (k.procs j).state)
  pub nextpid : k'.nextpid ≡ k.nextpid + 1

abbrev pub Allocs : Kernel → Option ℕ × Kernel → Type 0
Allocs k (some i, k') = Allocated k k' i embryo
Allocs k (none, k') =
    (NoneIn nproc_max 0 (λ j. is_unused (k.procs j).state) × (k' ≡ k))
    ⊎ ((i : ℕ) × Allocated k k' i unused)

-- `allocproc` takes the first unused entry and gives it the next pid, and changes state and pid of
-- no other entry; without an unused entry it changes nothing, and without a page for the stack the
-- entry is unused again.
pub allocproc-Allocs : (k : Kernel) (n : ℕ) → Allocs k (allocproc k n)
unfolding allocproc
allocproc-Allocs k n = elim (find_first_cases nproc_max 0 (λ i. is_unused (k.procs i).state)) [
  | inl (e, clear) ↦ rw (e, allocproc) (inl (clear, refl))
  | inr (i, e, at) ↦
      let k1 = take_entry k i n in
      elim (Bool-cases ((kalloc k1.kmem).0 == 0)) [
        | inl t ↦
            rw (e, t, allocproc)
              (inr (
                i,
                record {
                  first = at;
                  pid = λ j. ground (arith, pid-take_entry k i n j, pid-take_entry k i n i);
                  state = λ j. ground (arith, state-take_entry k i n j);
                  nextpid = nextpid-take_entry k i n;
                },
              ))
        | inr f ↦
            rw (e, f, allocproc)
              (record {
                first = at;
                pid = λ j. ground (arith, pid-take_entry k i n j, pid-take_entry k i n i);
                state = λ j. ground (arith, state-take_entry k i n j, state-take_entry k i n i);
                nextpid = nextpid-take_entry k i n;
              })
      ]
]
