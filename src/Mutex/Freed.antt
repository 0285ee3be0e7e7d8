-- ===== src/Mutex/Freed.antt =====
-- `kill` of proc.c counts the victim out of its mutexes and keeps its slots, so that `exit` counts
-- it out once more.
use dockv6_project.Base.{
  ℕ, zero, suc, ◌+◌, ◌≤◌, ◌<◌, ◌≡◌, ◌≢◌, inl, inr, refl, sym, arith, Option, none, some, ◌==◌, true,
  false, ℕ_discrete, Bool-cases, Option-cases, if◌then◌else◌, ◌∙◌, ap, subst,
}
use dockv6_project.Kernel.{Kernel, Mutex, Proc, mux_maxnum}
use dockv6_project.Mutex.{kill_entry, kill_slots, kill_slot, mutex_delete, delete_all}
use dockv6_project.Mutex.Kills.{marked, procs-kill_slot, procs-kill_entry}

-- The process has the mutex `m` at slot `h`, and nowhere else.
pub record OnlySlot (p : Proc) (h m : ℕ) : Type 0 where
  pub here : p.mutex h ≡ some m
  pub nowhere : (j : ℕ) → j ≢ h → p.mutex j ≢ some m

abbrev pub NoSlot : Proc → ℕ → Type 0
NoSlot p m = (j : ℕ) → p.mutex j ≢ some m

mux-kill_slot_other :
    (k : Kernel) (p i m : ℕ) → (k.procs p).mutex i ≢ some m → (kill_slot k p i).mux m ≡ k.mux m
unfolding kill_slot
mux-kill_slot_other k p i m ne = elim (Option-cases ((k.procs p).mutex i)) [
  | inl e ↦ rw (e, kill_slot)
  | inr (m', e) ↦
      let ne' : m' ≢ m = λ e'. ne (e ∙ ap some e') in
      elim (Bool-cases ((k.mux m').refcount == 1)) [
        | inl t ↦ rw (e, t, kill_slot) (ground arith)
        | inr f ↦ rw (e, f, kill_slot) (ground arith)
      ]
]

counted_out :
    (k : Kernel) (p i m : ℕ)
    → (k.procs p).mutex i ≡ some m
    → (k.mux m).refcount ≡ 2
    → ((kill_slot k p i).mux m).refcount ≡ 1
unfolding kill_slot
counted_out k p i m e two =
    let f : ((k.mux m).refcount == 1) ≡ false = ground arith in rw (e, f, kill_slot) (ground arith)

kill_slots_past :
    (n i : ℕ) (k : Kernel) (p h m : ℕ)
    → OnlySlot (k.procs p) h m
    → h < i
    → (kill_slots n i k p).mux m ≡ k.mux m
unfolding kill_slots
kill_slots_past zero i k p h m o l = refl
kill_slots_past (suc n) i k p h m o l =
    kill_slots_past n (suc i) (kill_slot k p i) p h m
      (subst (λ (f : ℕ → Proc). OnlySlot (f p) h m) (sym (procs-kill_slot k p i)) o) (omega arith)
    ∙ mux-kill_slot_other k p i m (o.nowhere i (omega arith))

kill_slots-refcount :
    (n i : ℕ) (k : Kernel) (p h m : ℕ)
    → OnlySlot (k.procs p) h m
    → i ≤ h
    → h < i + n
    → (k.mux m).refcount ≡ 2
    → ((kill_slots n i k p).mux m).refcount ≡ 1
unfolding kill_slots
kill_slots-refcount zero i k p h m o lo hi two = absurd (omega arith)
kill_slots-refcount (suc n) i k p h m o lo hi two =
    let o' = subst (λ (f : ℕ → Proc). OnlySlot (f p) h m) (sym (procs-kill_slot k p i)) o in
    elim (ℕ_discrete i h) [
      | yes same ↦
          ap (λ (x : Mutex). x.refcount)
            (kill_slots_past n (suc i) (kill_slot k p i) p h m o' (omega arith))
          ∙ counted_out k p i m (rw same o.here) two
      | no ne ↦
          kill_slots-refcount n (suc i) (kill_slot k p i) p h m o' (omega arith) (omega arith)
            (ap (λ (x : Mutex). x.refcount) (mux-kill_slot_other k p i m (o.nowhere i ne)) ∙ two)
    ]

mux-delete_other :
    (k : Kernel) (p i m : ℕ) → (k.procs p).mutex i ≢ some m → (mutex_delete k p i).mux m ≡ k.mux m
unfolding mutex_delete
mux-delete_other k p i m ne = elim (Option-cases ((k.procs p).mutex i)) [
  | inl e ↦ rw (e, mutex_delete)
  | inr (m', e) ↦
      let ne' : m' ≢ m = λ e'. ne (e ∙ ap some e') in
      elim (Bool-cases ((k.mux m').refcount == 1)) [
        | inl t ↦ rw (e, t, mutex_delete) (ground arith)
        | inr f ↦ rw (e, f, mutex_delete) (ground arith)
      ]
]

-- The slots behind a delete: the slot given is empty, and no other slot of any process changes.
pub slots-delete :
    (k : Kernel) (p i q j : ℕ)
    → ((mutex_delete k p i).procs q).mutex j
      ≡ (if p == q then (if i == j then none else (k.procs q).mutex j) else (k.procs q).mutex j)
unfolding mutex_delete
slots-delete k p i q j = elim (Option-cases ((k.procs p).mutex i)) [
  | inl e ↦ rw (e, mutex_delete) (ground arith)
  | inr (m, e) ↦ elim (Bool-cases ((k.mux m).refcount == 1)) [
    | inl t ↦ rw (e, t, mutex_delete) (ground arith)
    | inr f ↦ rw (e, f, mutex_delete) (ground arith)
  ]
]

slots-delete_all :
    (n i : ℕ) (k : Kernel) (p q j : ℕ)
    → p ≢ q
    → ((delete_all n i k p).procs q).mutex j ≡ (k.procs q).mutex j
unfolding delete_all
slots-delete_all zero i k p q j ne = refl
slots-delete_all (suc n) i k p q j ne =
    slots-delete_all n (suc i) (mutex_delete k p i) p q j ne
    ∙ (slots-delete k p i q j ∙ ground arith)

NoSlot-delete :
    (k : Kernel) (p i m : ℕ) → NoSlot (k.procs p) m → NoSlot ((mutex_delete k p i).procs p) m
NoSlot-delete k p i m out j = ground (arith, slots-delete k p i p j, out j)

NoSlot-delete_only :
    (k : Kernel) (p h m : ℕ) → OnlySlot (k.procs p) h m → NoSlot ((mutex_delete k p h).procs p) m
NoSlot-delete_only k p h m o j = elim (ℕ_discrete j h) [
  | yes e ↦ ground (arith, slots-delete k p h p j)
  | no ne ↦ ground (arith, slots-delete k p h p j, o.nowhere j ne)
]

OnlySlot-delete :
    (k : Kernel) (p i h m : ℕ)
    → OnlySlot (k.procs p) h m
    → i ≢ h
    → OnlySlot ((mutex_delete k p i).procs p) h m
OnlySlot-delete k p i h m o ne = record {
  here = slots-delete k p i p h ∙ ground (arith, o.here);
  nowhere = λ j ne'. ground (arith, slots-delete k p i p j, o.nowhere j ne');
}

delete_all_past :
    (n i : ℕ) (k : Kernel) (p m : ℕ) → NoSlot (k.procs p) m → (delete_all n i k p).mux m ≡ k.mux m
unfolding delete_all
delete_all_past zero i k p m out = refl
delete_all_past (suc n) i k p m out =
    delete_all_past n (suc i) (mutex_delete k p i) p m (NoSlot-delete k p i m out)
    ∙ mux-delete_other k p i m (out i)

delete_last :
    (k : Kernel) (p h m : ℕ)
    → (k.procs p).mutex h ≡ some m
    → (k.mux m).refcount ≡ 1
    → ((mutex_delete k p h).mux m).is_alloc ≡ false
unfolding mutex_delete
delete_last k p h m e one =
    let t : ((k.mux m).refcount == 1) ≡ true = ground arith in
    rw (e, t, mutex_delete) (ground arith)

delete_all-frees :
    (n i : ℕ) (k : Kernel) (p h m : ℕ)
    → OnlySlot (k.procs p) h m
    → i ≤ h
    → h < i + n
    → (k.mux m).refcount ≡ 1
    → ((delete_all n i k p).mux m).is_alloc ≡ false
unfolding delete_all
delete_all-frees zero i k p h m o lo hi one = absurd (omega arith)
delete_all-frees (suc n) i k p h m o lo hi one = elim (ℕ_discrete i h) [
  | yes same ↦
      ap (λ (x : Mutex). x.is_alloc)
        (delete_all_past n (suc i) (mutex_delete k p i) p m
          (rw same (NoSlot-delete_only k p h m o)))
      ∙ delete_last k p i m (rw same o.here) one
  | no ne ↦
      delete_all-frees n (suc i) (mutex_delete k p i) p h m (OnlySlot-delete k p i h m o ne)
        (omega arith) (omega arith)
        (ap (λ (x : Mutex). x.refcount) (mux-delete_other k p i m (o.nowhere i ne)) ∙ one)
]

mutex-kill_entry : (k : Kernel) (p j : ℕ) → ((kill_entry k p).procs j).mutex ≡ (k.procs j).mutex
mutex-kill_entry k p j = ap (λ (x : Proc). x.mutex) (procs-kill_entry k p j) ∙ ground arith

mux-kill_entry :
    (k : Kernel) (p : ℕ) → (kill_entry k p).mux ≡ (kill_slots mux_maxnum 0 (marked k p) p).mux
unfolding kill_entry
mux-kill_entry k p = ground arith

-- A mutex that two processes share is deallocated once one of them has been killed and has left its
-- mutexes in `exit`, while the other one still has it.
pub killed_exit-frees :
    (k : Kernel) (p q m h j : ℕ)
    → h < mux_maxnum
    → OnlySlot (k.procs p) h m
    → (k.mux m).refcount ≡ 2
    → p ≢ q
    → (k.procs q).mutex j ≡ some m
    → let k' = delete_all mux_maxnum 0 (kill_entry k p) p in
      ((k'.mux m).is_alloc ≡ false) × ((k'.procs q).mutex j ≡ some m)
killed_exit-frees k p q m h j l o two ne e = (
  delete_all-frees mux_maxnum 0 (kill_entry k p) p h m still (omega arith) (omega arith) one,
  slots-delete_all mux_maxnum 0 (kill_entry k p) p q j ne
      ∙ (ap (λ (s : ℕ → Option ℕ). s j) (mutex-kill_entry k p q) ∙ e),
)
  where
    still : OnlySlot ((kill_entry k p).procs p) h m
    still = record {
      here = ap (λ (s : ℕ → Option ℕ). s h) (mutex-kill_entry k p p) ∙ o.here;
      nowhere = λ x nx e'.
          o.nowhere x nx (sym (ap (λ (s : ℕ → Option ℕ). s x) (mutex-kill_entry k p p)) ∙ e');
    }

    marked_only : OnlySlot ((marked k p).procs p) h m
    marked_only = record {
      here = ground (arith, o.here);
      nowhere = λ x nx. ground (arith, o.nowhere x nx);
    }

    one : ((kill_entry k p).mux m).refcount ≡ 1
    one =
        ap (λ (f : ℕ → Mutex). (f m).refcount) (mux-kill_entry k p)
        ∙ kill_slots-refcount mux_maxnum 0 (marked k p) p h m marked_only (omega arith)
            (omega arith) two
