-- ===== src/Mutex/Holder.antt =====
-- Who holds a mutex of proc.c: only its holder gives it up, and nobody misses that.
use dockv6_project.Base.{
  ◌≤◌, ◌<◌, ltb, ap, ==_iff, Option, ℕ, ◌≡◌, ◌≢◌, inl, inr, refl, sym, arith, none, some, ◌==◌,
  true, false, Bool-cases, Option-cases, ◌∙◌, update, List,
}
use dockv6_project.Kernel.{Kernel, on_mutex, mux_maxnum, set_mux, Chan}
use dockv6_project.Process.{wakeup1, sleep_on, resume}
use dockv6_project.Process.Wakeup.{SleepsOn, pid-wakeup1, Woken, wakeup1-Woken}
use dockv6_project.Base.Int.{ℤ}
use dockv6_project.Mutex.{
  length, name_size, mutex_create, create_from, add_to_proc, setup_mutex, scan_slots, scan_mux,
  mutex_holding, mutex_delete, mutex_unlock, Blocking, returns, sleeps, lock_loop, mutex_lock,
  lock_again, cv_take, cv_sleep, cv_wait, signal_round, cv_signal, Scan, Slot, shared, vacant,
  has_access, first_free,
}

-- The process `p` holds the mutex `m`.
abbrev pub Holding : Kernel → ℕ → ℕ → Type 0
Holding k p m = ((k.mux m).locked ≡ true) × ((k.mux m).pid ≡ (k.procs p).pid)

-- How a round of `mutex_lock` on `m` ends.
abbrev pub LockEnds : Kernel → ℕ → ℕ → Blocking → Type 0
LockEnds k cur m (returns k') = ((k.mux m).locked ≡ false) × Holding k' cur m
LockEnds k cur m (sleeps m' k') =
    (m' ≡ m) × ((k.mux m).locked ≡ true) × SleepsOn k' (on_mutex m) cur × (k'.mux ≡ k.mux)

-- One round of `mutex_lock` takes the mutex if it is free; if it is not, the process sleeps on it
-- and no mutex is changed.
pub lock_loop-LockEnds : (k : Kernel) (cur m : ℕ) → LockEnds k cur m (lock_loop k cur m)
unfolding lock_loop sleep_on
lock_loop-LockEnds k cur m = elim (Bool-cases (k.mux m).locked) [
  | inl t ↦ rw (t, lock_loop) (refl, t, (ground arith, ground arith), refl)
  | inr f ↦ rw (f, lock_loop) (f, ground arith)
]

-- The kernel behind a round that returns or sleeps.
abbrev pub after : Blocking → Kernel
after (returns k) = k
after (sleeps m k) = k

-- The kernel behind `mutex_create`, where the name fits.
abbrev pub created : Kernel → Option (ℤ × Kernel) → Kernel
created k none = k
created k (some r) = r.1

-- The calls of the mutex interface, each up to its return or its next sleep.
pub data Call : Type 0 where
  creates : List ℕ → Call
  deletes locks unlocks waits signals : ℕ → Call
  locks_again takes parks : ℕ → Call

pub run_call : Kernel → ℕ → Call → Kernel
run_call k q (creates name) = created k (mutex_create k q name)
run_call k q (deletes i) = mutex_delete k q i
run_call k q (locks i) = after (mutex_lock k q i)
run_call k q (unlocks i) = mutex_unlock k q i
run_call k q (waits i) = (cv_wait k q i).1
run_call k q (signals i) = (cv_signal k q i).1
run_call k q (locks_again m) = after (lock_again k q m)
run_call k q (takes m) = (cv_take k m).1
run_call k q (parks m) = cv_sleep k q m

-- A name that fits, slots inside the table, and no delete of the last reference to `m`.
abbrev pub Proper : Kernel → ℕ → ℕ → Call → Type 0
Proper k q m (creates name) = length name ≤ name_size
Proper k q m (deletes i) =
    (i < mux_maxnum) × ((k.procs q).mutex i ≡ some m → (k.mux m).refcount ≢ 1)
Proper k q m (locks i) = i < mux_maxnum
Proper k q m (unlocks i) = i < mux_maxnum
Proper k q m (waits i) = i < mux_maxnum
Proper k q m (signals i) = i < mux_maxnum
Proper k q m (locks_again m') = Unit
Proper k q m (takes m') = Unit
Proper k q m (parks m') = Unit

wakeup1-Holding : (k : Kernel) (c : Chan) (p m : ℕ) → Holding k p m → Holding (wakeup1 k c) p m
wakeup1-Holding k c p m h = (mux_kept h.0, mux_kept' h.1 ∙ sym (pid-wakeup1 k c p))
  where
    mux_kept : (k.mux m).locked ≡ true → ((wakeup1 k c).mux m).locked ≡ true
    mux_kept e = unfold wakeup1 in e

    mux_kept' : (k.mux m).pid ≡ (k.procs p).pid → ((wakeup1 k c).mux m).pid ≡ (k.procs p).pid
    mux_kept' e = unfold wakeup1 in e

module _ (k : Kernel) (p m q : ℕ) (h : Holding k p m)
    (other : (k.procs q).pid ≢ (k.procs p).pid) where
  lock_loop-Holding : (m' : ℕ) → Holding (after (lock_loop k q m')) p m
  unfolding lock_loop sleep_on
  lock_loop-Holding m' = ground arith

  mutex_lock-Holding : (i : ℕ) → Holding (after (mutex_lock k q i)) p m
  unfolding mutex_lock
  mutex_lock-Holding i = elim (Option-cases ((k.procs q).mutex i)) [
    | inl e ↦ rw (e, mutex_lock) h
    | inr (m', e) ↦ elim (Bool-cases (mutex_holding k q m')) [
      | inl t ↦ rw (e, t, mutex_lock) h
      | inr f ↦ rw (e, f, mutex_lock) (lock_loop-Holding m')
    ]
  ]

  not_q : mutex_holding k q m ≡ false
  not_q = ground arith

  elsewhere : (m' : ℕ) → mutex_holding k q m' ≡ true → m' ≢ m
  elsewhere m' t e = ground (arith, not_q)

  unlock-Holding : (i : ℕ) → Holding (mutex_unlock k q i) p m
  unfolding mutex_unlock
  unlock-Holding i = elim (Option-cases ((k.procs q).mutex i)) [
    | inl e ↦ rw (e, mutex_unlock) h
    | inr (m', e) ↦ elim (Bool-cases (mutex_holding k q m')) [
      | inr f ↦ rw (e, f, mutex_unlock) h
      | inl t ↦
          let ne = elsewhere m' t in
          rw (e, t, mutex_unlock)
            (wakeup1-Holding (set_mux k m' (record (k.mux m') { locked = false })) (on_mutex m') p m
              (ground arith))
    ]
  ]

  sleep_on-Holding : (c : Chan) → Holding (sleep_on k q c) p m
  unfolding sleep_on
  sleep_on-Holding c = ground arith

  resume-Holding : Holding (resume k q) p m
  unfolding resume
  resume-Holding = ground arith

  signal-Holding : (i : ℕ) → Holding (cv_signal k q i).1 p m
  unfolding cv_signal signal_round
  signal-Holding i = elim (Option-cases ((k.procs q).mutex i)) [
    | inl e ↦ rw (e, cv_signal) h
    | inr (m', e) ↦
        rw (e, cv_signal)
          (wakeup1-Holding (set_mux k m' (record (k.mux m') { cv = true })) (on_mutex m') p m
            (ground arith))
  ]

  delete-Holding :
      (i : ℕ)
      → ((k.procs q).mutex i ≡ some m → (k.mux m).refcount ≢ 1)
      → Holding (mutex_delete k q i) p m
  unfolding mutex_delete
  delete-Holding i many = elim (Option-cases ((k.procs q).mutex i)) [
    | inl e ↦ rw (e, mutex_delete) h
    | inr (m', e) ↦ elim (Bool-cases ((k.mux m').refcount == 1)) [
      | inl t ↦
          let apart : m' ≢ m = λ same.
            many (e ∙ ap (λ x. some x) same)
              (ap (λ x. (k.mux x).refcount) (sym same) ∙ (==_iff _ 1).0 t) in
          rw (e, t, mutex_delete) (ground (arith, apart))
      | inr f ↦ rw (e, f, mutex_delete) (ground arith)
    ]
  ]

  add-Holding : (m' : ℕ) (s : Slot) → Holding (add_to_proc k q m' s).1 p m
  unfolding add_to_proc
  add-Holding m' has_access = h
  add-Holding m' (first_free none) = h
  add-Holding m' (first_free (some i)) = ground arith

  setup-Holding : (name : List ℕ) (m' : ℕ) → Holding (setup_mutex k q name m').1 p m
  unfolding setup_mutex
  setup-Holding name m' = ground arith

  create_from-Holding :
      (name : List ℕ) (s : Scan) → Holding (created k (create_from k q name s)) p m
  unfolding create_from
  create_from-Holding name (shared m') =
      add-Holding m' (scan_slots mux_maxnum 0 (k.procs q).mutex m' none)
  create_from-Holding name (vacant (some m')) = elim (Bool-cases (ltb name_size (length name))) [
    | inl long ↦ rw long h
    | inr fits ↦ rw fits (setup-Holding name m')
  ]
  create_from-Holding name (vacant none) = h

pid-resume : (k : Kernel) (q j : ℕ) → ((resume k q).procs j).pid ≡ (k.procs j).pid
unfolding resume
pid-resume k q j = ground arith

module _ (k : Kernel) (p m q : ℕ) (h : Holding k p m)
    (other : (k.procs q).pid ≢ (k.procs p).pid) where
  cv_wait-Holding : (i : ℕ) → Holding (cv_wait k q i).1 p m
  unfolding cv_wait
  cv_wait-Holding i = elim (Option-cases ((k.procs q).mutex i)) [
    | inl e ↦ rw (e, cv_wait) h
    | inr (m', e) ↦ elim (Bool-cases (mutex_holding k q m')) [
      | inr f ↦ rw (e, f, cv_wait) h
      | inl t ↦ rw (e, t, cv_wait) (unlock-Holding k p m q h other i)
    ]
  ]

  cv_take-Holding : (m' : ℕ) → Holding (cv_take k m').1 p m
  unfolding cv_take
  cv_take-Holding m' = ground arith

  -- A process that holds a mutex keeps it through every call of the mutex interface that a process
  -- with another pid makes, with a name of at most 20 bytes or a slot below MUX_MAXNUM, as long as
  -- that call is not the delete of the last reference to the mutex.
  pub call-Holding : (a : Call) → Proper k q m a → Holding (run_call k q a) p m
  unfolding run_call lock_again mutex_create cv_sleep
  call-Holding (creates name) ok =
      create_from-Holding k p m q h other name
        (scan_mux mux_maxnum 0 k name (k.procs q).container_id none)
  call-Holding (deletes i) ok = delete-Holding k p m q h other i ok.1
  call-Holding (locks i) ok = mutex_lock-Holding k p m q h other i
  call-Holding (unlocks i) ok = unlock-Holding k p m q h other i
  call-Holding (waits i) ok = cv_wait-Holding i
  call-Holding (signals i) ok = signal-Holding k p m q h other i
  call-Holding (locks_again m') ok =
      lock_loop-Holding (resume k q) p m q (resume-Holding k p m q h other)
        (rw (pid-resume k q q, pid-resume k q p) other) m'
  call-Holding (takes m') ok = cv_take-Holding m'
  call-Holding (parks m') ok = sleep_on-Holding k p m q h other (on_mutex m')

-- The holder's `mutex_unlock` frees the mutex and makes every process that sleeps on it runnable;
-- no other mutex changes.
pub unlock_wakes :
    (k : Kernel) (cur i m : ℕ)
    → (k.procs cur).mutex i ≡ some m
    → Holding k cur m
    → ((mutex_unlock k cur i).mux ≡ update k.mux m (record (k.mux m) { locked = false }))
      × Woken k (mutex_unlock k cur i) (on_mutex m)
unfolding mutex_unlock
unlock_wakes k cur i m e h =
    let t : mutex_holding k cur m ≡ true = ground arith in
    rw (e, t, mutex_unlock)
      (
        unfold wakeup1 in refl,
        woken_from (wakeup1-Woken (set_mux k m (record (k.mux m) { locked = false })) (on_mutex m)),
      )
  where
    woken_from :
        {k' : Kernel}
        → Woken (set_mux k m (record (k.mux m) { locked = false })) k' (on_mutex m)
        → Woken k k' (on_mutex m)
    woken_from w = record { woken = w.woken; kept = w.kept }
