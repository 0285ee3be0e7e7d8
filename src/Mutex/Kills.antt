-- ===== src/Mutex/Kills.antt =====
-- What `kill` of proc.c does to its victim, and to the mutexes that the victim shares.
use dockv6_project.Base.{
  ℕ, zero, suc, ◌+◌, ◌≤◌, ◌<◌, ◌≡◌, ◌≢◌, inl, inr, refl, arith, some, ◌==◌, true, false, ◌&&◌,
  ℕ_discrete, Bool, Bool-cases, Option-cases, if◌then◌else◌, ◌∙◌, ap, find_first_cases, FirstAt,
  NoneIn,
}
use dockv6_project.Base.Int.{ℤ, pos, negsuc}
use dockv6_project.Kernel.{Kernel, Proc, runnable, is_sleeping, nproc_max, mux_maxnum, set_proc}
use dockv6_project.Mutex.{kill, kill_entry, kill_slots, kill_slot}

pub procs-kill_slot : (k : Kernel) (p i : ℕ) → (kill_slot k p i).procs ≡ k.procs
unfolding kill_slot
procs-kill_slot k p i = elim (Option-cases ((k.procs p).mutex i)) [
  | inl e ↦ rw (e, kill_slot)
  | inr (m, e) ↦ elim (Bool-cases ((k.mux m).refcount == 1)) [
    | inl t ↦ rw (e, t, kill_slot)
    | inr f ↦ rw (e, f, kill_slot)
  ]
]

procs-kill_slots : (n i : ℕ) (k : Kernel) (p : ℕ) → (kill_slots n i k p).procs ≡ k.procs
unfolding kill_slots
procs-kill_slots zero i k p = refl
procs-kill_slots (suc n) i k p =
    procs-kill_slots n (suc i) (kill_slot k p i) p ∙ procs-kill_slot k p i

-- The victim's entry.
abbrev pub killed_proc : Proc → Proc
killed_proc p =
    if is_sleeping p.state
    then record p { killed = true; state = runnable }
    else record p { killed = true }

abbrev pub marked : Kernel → ℕ → Kernel
marked k p = set_proc k p (record (k.procs p) { killed = true })

pub procs-kill_entry :
    (k : Kernel) (p j : ℕ)
    → (kill_entry k p).procs j ≡ (if p == j then killed_proc (k.procs p) else k.procs j)
unfolding kill_entry
procs-kill_entry k p j =
    let e = procs-kill_slots mux_maxnum 0 (marked k p) p in
    ground (arith, ap (λ (f : ℕ → Proc). f p) e, ap (λ (f : ℕ → Proc). f j) e)

nextpid-kill_slot : (k : Kernel) (p i : ℕ) → (kill_slot k p i).nextpid ≡ k.nextpid
unfolding kill_slot
nextpid-kill_slot k p i = ground arith

nextpid-kill_slots : (n i : ℕ) (k : Kernel) (p : ℕ) → (kill_slots n i k p).nextpid ≡ k.nextpid
unfolding kill_slots
nextpid-kill_slots zero i k p = refl
nextpid-kill_slots (suc n) i k p =
    nextpid-kill_slots n (suc i) (kill_slot k p i) p ∙ nextpid-kill_slot k p i

pub nextpid-kill_entry : (k : Kernel) (p : ℕ) → (kill_entry k p).nextpid ≡ k.nextpid
unfolding kill_entry
nextpid-kill_entry k p = ground (arith, nextpid-kill_slots mux_maxnum 0 (marked k p) p)

-- The test of the loop of `kill`.
abbrev pub is_target : Kernel → ℕ → ℕ → ℕ → Bool
is_target k cur pid i =
    ((k.procs i).pid == pid) && ((k.procs i).container_id == (k.procs cur).container_id)

abbrev pub Kills : Kernel → ℕ → ℕ → ℤ × Kernel → Type 0
Kills k cur pid (pos r, k') =
    (p : ℕ) × FirstAt nproc_max 0 (is_target k cur pid) p
    × (k'.procs p ≡ killed_proc (k.procs p))
    × ((q : ℕ) → p ≢ q → k'.procs q ≡ k.procs q)
Kills k cur pid (negsuc r, k') = NoneIn nproc_max 0 (is_target k cur pid) × (k' ≡ k)

-- A call `kill(pid)` that returns 0 marks the first process of that pid in the caller's container
-- as killed, makes it runnable if it slept, and changes no other process, so none of another
-- container; it returns -1, and changes nothing, exactly when there is no such process.
pub kill-Kills : (k : Kernel) (cur pid : ℕ) → Kills k cur pid (kill k cur pid)
unfolding kill
kill-Kills k cur pid = elim (find_first_cases nproc_max 0 (is_target k cur pid)) [
  | inl (e, clear) ↦ rw (e, kill) (clear, refl)
  | inr (p, e, at) ↦
      rw (e, kill)
        (
          p,
          at,
          procs-kill_entry k p p ∙ ground arith,
          λ q ne. procs-kill_entry k p q ∙ ground arith,
        )
]

unlocked-kill_slot :
    (k : Kernel) (p i m : ℕ) → (k.mux m).locked ≡ false → ((kill_slot k p i).mux m).locked ≡ false
unfolding kill_slot
unlocked-kill_slot k p i m h = elim (Option-cases ((k.procs p).mutex i)) [
  | inl e ↦ rw (e, kill_slot) h
  | inr (m', e) ↦ elim (Bool-cases ((k.mux m').refcount == 1)) [
    | inl t ↦ rw (e, t, kill_slot) (ground arith)
    | inr f ↦ rw (e, f, kill_slot) (ground arith)
  ]
]

unlocks-kill_slot :
    (k : Kernel) (p i m : ℕ)
    → (k.procs p).mutex i ≡ some m
    → ((kill_slot k p i).mux m).locked ≡ false
unfolding kill_slot
unlocks-kill_slot k p i m e = elim (Bool-cases ((k.mux m).refcount == 1)) [
  | inl t ↦ rw (e, t, kill_slot) (ground arith)
  | inr f ↦ rw (e, f, kill_slot) (ground arith)
]

unlocked-kill_slots :
    (n i : ℕ) (k : Kernel) (p m : ℕ)
    → (k.mux m).locked ≡ false
    → ((kill_slots n i k p).mux m).locked ≡ false
unfolding kill_slots
unlocked-kill_slots zero i k p m h = h
unlocked-kill_slots (suc n) i k p m h =
    unlocked-kill_slots n (suc i) (kill_slot k p i) p m (unlocked-kill_slot k p i m h)

unlocks-kill_slots :
    (n i : ℕ) (k : Kernel) (p m j : ℕ)
    → i ≤ j
    → j < i + n
    → (k.procs p).mutex j ≡ some m
    → ((kill_slots n i k p).mux m).locked ≡ false
unfolding kill_slots
unlocks-kill_slots zero i k p m j lo hi e = absurd (omega arith)
unlocks-kill_slots (suc n) i k p m j lo hi e = elim (ℕ_discrete i j) [
  | yes same ↦
      unlocked-kill_slots n (suc i) (kill_slot k p i) p m (unlocks-kill_slot k p i m (rw same e))
  | no ne ↦
      unlocks-kill_slots n (suc i) (kill_slot k p i) p m j (omega arith) (omega arith)
        (rw (procs-kill_slot k p i) e)
]

-- After `kill` has handled its victim, every mutex that the victim has a slot for is unlocked,
-- whoever holds it.
pub kill_entry-unlocks :
    (k : Kernel) (p m i : ℕ)
    → i < mux_maxnum
    → (k.procs p).mutex i ≡ some m
    → ((kill_entry k p).mux m).locked ≡ false
unfolding kill_entry
kill_entry-unlocks k p m i l e =
    let h =
      unlocks-kill_slots mux_maxnum 0 (marked k p) p m i (omega arith) (omega arith)
        (ground arith) in
    ground (arith, h)
