-- ===== src/Mutex/Refs.antt =====
-- The reference counts of the mutexes of proc.c against the slots of all processes.
use dockv6_project.Base.{
  ◌^◌, ℕ, ◌+◌, ◌≤◌, ◌<◌, ◌≡◌, ◌≢◌, inl, inr, arith, Option, none, some, ◌==◌, false, Bool-cases,
  Option-cases, if◌then◌else◌, ◌∙◌, ap, fun_ext, same_ptr,
}
use dockv6_project.Base.Sums.{sum_below, sum_change, sum_bound, sum_entry}
use dockv6_project.Kernel.{Kernel, Proc, mux_maxnum, nproc_max}
use dockv6_project.Mutex.{mutex_delete, add_to_proc, first_free}
use dockv6_project.Mutex.Freed.{slots-delete}

abbrev pub points_to : Option ℕ → ℕ → ℕ
points_to q m = if same_ptr q (some m) then 1 else 0

-- How many slots of a process lead to `m`.
abbrev pub slot_refs : Proc → ℕ → ℕ
slot_refs p m = sum_below (λ i. points_to (p.mutex i) m) mux_maxnum

-- How many slots of all processes lead to `m`.
abbrev pub refs : Kernel → ℕ → ℕ
refs k m = sum_below (λ p. slot_refs (k.procs p) m) nproc_max

-- Every reference count is right.
abbrev pub Counted : Kernel → Type 0
Counted k = (m : ℕ) → (k.mux m).refcount ≡ refs k m

points_to-le : (q : Option ℕ) (m : ℕ) → points_to q m ≤ 1
points_to-le q m = ground arith

slot_refs-le : (p : Proc) (m : ℕ) → slot_refs p m ≤ 16
slot_refs-le p m =
    omega (
      arith,
      sum_bound (λ i. points_to (p.mutex i) m) 1 mux_maxnum (λ i. points_to-le (p.mutex i) m),
    )

refs-le : (k : Kernel) (m : ℕ) → refs k m ≤ 1024
refs-le k m =
    omega (
      arith,
      sum_bound (λ p. slot_refs (k.procs p) m) 16 nproc_max (λ p. slot_refs-le (k.procs p) m),
    )

-- One slot of one process changes.
refs_change :
    (k k' : Kernel) (p i m : ℕ)
    → p < nproc_max
    → i < mux_maxnum
    → ((q j : ℕ)
        → (k'.procs q).mutex j ≡ (
            if p == q
            then (if i == j then (k'.procs p).mutex i else (k.procs q).mutex j)
            else (k.procs q).mutex j))
    → refs k' m + points_to ((k.procs p).mutex i) m ≡ refs k m + points_to ((k'.procs p).mutex i) m
refs_change k k' p i m lp li h = omega (arith, outer, inner)
  where
    inner :
        slot_refs (k'.procs p) m + points_to ((k.procs p).mutex i) m
        ≡ slot_refs (k.procs p) m + points_to ((k'.procs p).mutex i) m
    inner =
        sum_change (λ j. points_to ((k.procs p).mutex j) m)
          (λ j. points_to ((k'.procs p).mutex j) m) mux_maxnum i li
          (λ j ne. ap (λ (x : Option ℕ). points_to x m) (h p j ∙ ground arith))

    outer : refs k' m + slot_refs (k.procs p) m ≡ refs k m + slot_refs (k'.procs p) m
    outer =
        sum_change (λ q. slot_refs (k.procs q) m) (λ q. slot_refs (k'.procs q) m) nproc_max p lp
          (λ q ne.
            ap (λ (s : ℕ → Option ℕ). sum_below (λ j. points_to (s j) m) mux_maxnum)
              (fun_ext (λ j. h q j ∙ ground arith)))

emptied : (k : Kernel) (p i : ℕ) → ((mutex_delete k p i).procs p).mutex i ≡ none
emptied k p i = slots-delete k p i p i ∙ ground arith

delete-refs :
    (k : Kernel) (p i m : ℕ)
    → p < nproc_max
    → i < mux_maxnum
    → refs (mutex_delete k p i) m + points_to ((k.procs p).mutex i) m ≡ refs k m
delete-refs k p i m lp li = omega (
  arith,
  refs_change k (mutex_delete k p i) p i m lp li
      (λ q j. slots-delete k p i q j ∙ ground (arith, slots-delete k p i p i)),
  ap (λ (x : Option ℕ). points_to x m) (emptied k p i),
)

-- The count of `m` behind a delete that finds the counts right.
delete-refcount :
    (k : Kernel) (p i m : ℕ)
    → (k.mux m).refcount < 2 ^ 32
    → points_to ((k.procs p).mutex i) m ≤ (k.mux m).refcount
    → ((mutex_delete k p i).mux m).refcount + points_to ((k.procs p).mutex i) m ≡ (k.mux m).refcount
unfolding mutex_delete
delete-refcount k p i m small pos_ref = elim (Option-cases ((k.procs p).mutex i)) [
  | inl e ↦ rw (e, mutex_delete) (omega arith)
  | inr (m', e) ↦
      let le = ap (λ (x : Option ℕ). points_to x m) e in
      elim (Bool-cases ((k.mux m').refcount == 1)) [
        | inl t ↦ rw (e, t, mutex_delete) (ground arith)
        | inr f ↦ rw (e, f, mutex_delete) (ground arith)
      ]
]

slot-le-refs :
    (k : Kernel) (p i m : ℕ)
    → p < nproc_max
    → i < mux_maxnum
    → points_to ((k.procs p).mutex i) m ≤ refs k m
slot-le-refs k p i m lp li = omega (
  arith,
  sum_entry (λ j. points_to ((k.procs p).mutex j) m) mux_maxnum i li,
  sum_entry (λ q. slot_refs (k.procs q) m) nproc_max p lp,
)

delete_frees :
    (k : Kernel) (p i m : ℕ)
    → (k.procs p).mutex i ≡ some m
    → ((k.mux m).refcount ≡ 1 → ((mutex_delete k p i).mux m).is_alloc ≡ false)
      × ((k.mux m).refcount ≢ 1 → ((mutex_delete k p i).mux m).is_alloc ≡ (k.mux m).is_alloc)
unfolding mutex_delete
delete_frees k p i m e =
    (λ one. rw (e, mutex_delete) (ground arith), λ many. rw (e, mutex_delete) (ground arith))

-- Where every reference count equals the number of slots that lead to its mutex, `mutex_delete`
-- keeps it so; it deallocates the mutex of the slot exactly when that slot was the last one: if no
-- slot leads to it any more it is not allocated, and otherwise its allocation is as before.
pub delete-Counted :
    (k : Kernel) (p i : ℕ)
    → Counted k
    → p < nproc_max
    → i < mux_maxnum
    → Counted (mutex_delete k p i)
      × ((m : ℕ)
          → (k.procs p).mutex i ≡ some m
          → (refs (mutex_delete k p i) m ≡ 0 → ((mutex_delete k p i).mux m).is_alloc ≡ false)
            × (refs (mutex_delete k p i) m ≢ 0
                → ((mutex_delete k p i).mux m).is_alloc ≡ (k.mux m).is_alloc))
delete-Counted k p i c lp li = (
  λ m. omega (arith, count m, delete-refs k p i m lp li, c m),
  λ m e.
      let one : points_to ((k.procs p).mutex i) m ≡ 1 = rw e (ground arith) in
      let f = delete_frees k p i m e in
      let r = delete-refs k p i m lp li in
      (λ z. f.0 (omega (arith, c m)), λ nz. f.1 (λ q. nz (omega (arith, c m)))),
)
  where
    count :
        (m : ℕ)
        → ((mutex_delete k p i).mux m).refcount + points_to ((k.procs p).mutex i) m
          ≡ (k.mux m).refcount
    count m =
        delete-refcount k p i m (omega (arith, c m, refs-le k m))
          (omega (arith, c m, slot-le-refs k p i m lp li))

slots-add :
    (k : Kernel) (p m i q j : ℕ)
    → ((add_to_proc k p m (first_free (some i))).1.procs q).mutex j
      ≡ (if p == q then (if i == j then some m else (k.procs q).mutex j) else (k.procs q).mutex j)
unfolding add_to_proc
slots-add k p m i q j = ground arith

refcount-add :
    (k : Kernel) (p m i m' : ℕ)
    → (k.mux m').refcount ≤ 1024
    → ((add_to_proc k p m (first_free (some i))).1.mux m').refcount
      ≡ (k.mux m').refcount + points_to (some m) m'
unfolding add_to_proc
refcount-add k p m i m' l = ground arith

-- Sharing an existing mutex at a free slot keeps every reference count right.
pub add_to_proc-Counted :
    (k : Kernel) (p m i : ℕ)
    → Counted k
    → p < nproc_max
    → i < mux_maxnum
    → (k.procs p).mutex i ≡ none
    → Counted (add_to_proc k p m (first_free (some i))).1
add_to_proc-Counted k p m i c lp li free m' =
    let k' = (add_to_proc k p m (first_free (some i))).1 in
    let here = slots-add k p m i p i in
    let now : ((k'.procs p).mutex i) ≡ some m = here ∙ ground arith in
    let change =
      refs_change k k' p i m' lp li (λ q j. slots-add k p m i q j ∙ ground (arith, here)) in
    omega (
      arith,
      refcount-add k p m i m' (omega (arith, c m', refs-le k m')),
      change,
      ap (λ (x : Option ℕ). points_to x m') now,
      ap (λ (x : Option ℕ). points_to x m') free,
      c m',
    )
