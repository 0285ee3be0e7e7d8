-- ===== src/Process/Wakeup.antt =====
-- Whom `wakeup` of proc.c wakes, and that `sleep` misses no wakeup.
use dockv6_project.Base.{
  ℕ, ◌<◌, ◌≡◌, inl, inr, refl, arith, true, ◌&&◌, ==_iff, Bool-cases, ltb, lt→ltb,
}
use dockv6_project.Kernel.{
  Kernel, ProcState, sleeping, runnable, Chan, null_chan, on_proc, on_mutex, other, same_chan,
  is_sleeping, is_zombie, nproc_max,
}
use dockv6_project.Process.{wakeup1}

pub same_chan_refl : (c : Chan) → same_chan c c ≡ true
same_chan_refl null_chan = refl
same_chan_refl (on_proc a) = (==_iff a a).1 refl
same_chan_refl (on_mutex a) = (==_iff a a).1 refl
same_chan_refl (other a) = (==_iff a a).1 refl

pub same_chan_eq : (c d : Chan) → same_chan c d ≡ true → c ≡ d
same_chan_eq null_chan null_chan h = refl
same_chan_eq (on_proc a) (on_proc b) h = ground arith
same_chan_eq (on_mutex a) (on_mutex b) h = ground arith
same_chan_eq (other a) (other b) h = ground arith
same_chan_eq _ _ h = cc

-- A process sleeps on a channel.
abbrev pub SleepsOn : Kernel → Chan → ℕ → Type 0
SleepsOn k c i = ((k.procs i).state ≡ sleeping) × ((k.procs i).chan ≡ c)

-- A wakeup on `c` makes a process that sleeps on `c` runnable and changes nothing else of it, and
-- changes nothing of any other process.
pub record Woken (k k' : Kernel) (c : Chan) : Type 0 where
  pub woken :
      (i : ℕ)
      → i < nproc_max
      → SleepsOn k c i
      → k'.procs i ≡ record (k.procs i) { state = runnable }
  pub kept : (i : ℕ) → (¬ SleepsOn k c i) → k'.procs i ≡ k.procs i

woken_at :
    (k : Kernel) (c : Chan) (i : ℕ)
    → i < nproc_max
    → SleepsOn k c i
    → (wakeup1 k c).procs i ≡ record (k.procs i) { state = runnable }
unfolding wakeup1
woken_at k c i l s = rw (s.0, s.1, same_chan_refl c, lt→ltb i nproc_max l)

sleeps_of_test :
    (s : ProcState) (d c : Chan) → is_sleeping s && same_chan d c ≡ true → (s ≡ sleeping) × (d ≡ c)
sleeps_of_test sleeping d c h = (refl, same_chan_eq d c h)
sleeps_of_test _ d c h = cc

kept_at : (k : Kernel) (c : Chan) (i : ℕ) → (¬ SleepsOn k c i) → (wakeup1 k c).procs i ≡ k.procs i
unfolding wakeup1
kept_at k c i h =
    elim (Bool-cases
      (ltb i nproc_max && (is_sleeping (k.procs i).state && same_chan (k.procs i).chan c))) [
        | inl t ↦ absurd (h (sleeps_of_test (k.procs i).state (k.procs i).chan c (ground arith)))
        | inr f ↦ rw f
      ]

-- `wakeup1(chan)` wakes exactly the processes that sleep on `chan`.
pub wakeup1-Woken : (k : Kernel) (c : Chan) → Woken k (wakeup1 k c) c
wakeup1-Woken k c = record { woken = woken_at k c; kept = kept_at k c }

-- Fields that a wakeup leaves alone.
pub pid-wakeup1 : (k : Kernel) (c : Chan) (i : ℕ) → ((wakeup1 k c).procs i).pid ≡ (k.procs i).pid
unfolding wakeup1
pid-wakeup1 k c i = ground arith

pub parent-wakeup1 :
    (k : Kernel) (c : Chan) (i : ℕ) → ((wakeup1 k c).procs i).parent ≡ (k.procs i).parent
unfolding wakeup1
parent-wakeup1 k c i = ground arith

pub nextpid-wakeup1 : (k : Kernel) (c : Chan) → (wakeup1 k c).nextpid ≡ k.nextpid
unfolding wakeup1
nextpid-wakeup1 k c = refl

pub initproc-wakeup1 : (k : Kernel) (c : Chan) → (wakeup1 k c).initproc ≡ k.initproc
unfolding wakeup1
initproc-wakeup1 k c = refl

-- A process that can run still can.
pub runnable-wakeup1 :
    (k : Kernel) (c : Chan) (i : ℕ)
    → (k.procs i).state ≡ runnable
    → ((wakeup1 k c).procs i).state ≡ runnable
unfolding wakeup1
runnable-wakeup1 k c i h = ground arith

pub is_zombie-wakeup1 :
    (k : Kernel) (c : Chan) (i : ℕ)
    → is_zombie ((wakeup1 k c).procs i).state ≡ is_zombie (k.procs i).state
unfolding wakeup1
is_zombie-wakeup1 k c i = ground arith
