-- ===== src/Mutex/Signals.antt =====
-- The signals of `cv_signal` and `cv_wait` of proc.c: how one arrives, and how one is missed.
use dockv6_project.Base.{ℕ, ◌≡◌, arith, true, false, ◌↔◌}
use dockv6_project.Kernel.{Kernel, on_mutex, set_mux}
use dockv6_project.Process.{wakeup1, sleep_on}
use dockv6_project.Process.Wakeup.{SleepsOn, Woken, wakeup1-Woken}
use dockv6_project.Mutex.{cv_take, cv_sleep, signal_round}

-- The kernel in which a waiter has used up the signal on `m`.
abbrev pub signal_taken : Kernel → ℕ → Kernel
signal_taken k m = set_mux k m (record (k.mux m) { cv = false })

cv_take_set : (k : Kernel) (m : ℕ) → (k.mux m).cv ≡ true → cv_take k m ≡ (true, signal_taken k m)
unfolding cv_take
cv_take_set k m e = rw (e, cv_take)

-- A round of `cv_signal` leaves the flag of the mutex set and wakes every process that sleeps on
-- the mutex; it is the last round exactly when the flag was clear. The next waiter that tests
-- the flag takes the signal: it clears the flag and leaves its loop.
pub signal_handshake :
    (k : Kernel) (m : ℕ)
    → let (done, k') = signal_round k m in
      ((done ≡ true) ↔ ((k.mux m).cv ≡ false))
      × ((k'.mux m).cv ≡ true)
      × Woken k k' (on_mutex m)
      × (cv_take k' m ≡ (true, signal_taken k' m))
unfolding signal_round
signal_handshake k m = (
  ground arith,
  set_flag,
  woken_from (wakeup1-Woken flagged (on_mutex m)),
  cv_take_set (wakeup1 flagged (on_mutex m)) m set_flag,
)
  where
    flagged : Kernel
    flagged = set_mux k m (record (k.mux m) { cv = true })

    set_flag : ((wakeup1 flagged (on_mutex m)).mux m).cv ≡ true
    set_flag = unfold wakeup1 in ground arith

    woken_from : {k' : Kernel} → Woken flagged k' (on_mutex m) → Woken k k' (on_mutex m)
    woken_from w = record { woken = w.woken; kept = w.kept }

-- A waiter can miss a signal. Where the flag is clear its test fails; if a round of `cv_signal`,
-- which then is the last one, runs before the waiter has taken `ptable.lock`, the waiter goes to
-- sleep on the mutex with the flag set.
pub signal_missed :
    (k : Kernel) (cur m : ℕ)
    → (k.mux m).cv ≡ false
    → (cv_take k m ≡ (false, k))
      × ((signal_round k m).0 ≡ true)
      × (let k' = cv_sleep (signal_round k m).1 cur m in
          SleepsOn k' (on_mutex m) cur × ((k'.mux m).cv ≡ true))
unfolding cv_take signal_round cv_sleep sleep_on
signal_missed k cur m e = (rw (e, cv_take), ground arith, ((ground arith, ground arith), set_flag))
  where
    set_flag :
        ((wakeup1 (set_mux k m (record (k.mux m) { cv = true })) (on_mutex m)).mux m).cv ≡ true
    set_flag = unfold wakeup1 in ground arith
