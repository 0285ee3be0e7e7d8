-- ===== src/Locks.antt =====
-- spinlock.c and sleeplock.c: the locks of the kernel, and the nesting of interrupts that are off.
-- A processor is an index. `getcallerpcs` and lock names are for debugging and left out.
pub mod Nesting
use dockv6_project.Base.{
  ℕ, zero, suc, ◌+◌, ◌-◌, ◌==◌, if◌then◌else◌, ◌&&◌, Bool, true, false, Option, none, some, update,
  same_ptr,
}
use dockv6_project.Kernel.{Kernel, other}
use dockv6_project.Process.{wakeup1, sleep_on}

-- Of `struct cpu`, with the interrupt flag of its processor.
pub record Cpu : Type 0 where
  pub ncli : ℕ
  pub intena : Bool
  pub interrupts : Bool

unfoldable pub pushcli : Cpu → Cpu
pushcli c = record {
  ncli = c.ncli + 1;
  intena = if c.ncli == 0 then c.interrupts else c.intena;
  interrupts = false;
}

-- `none` is a panic.
unfoldable pub popcli : Cpu → Option Cpu
popcli c =
    if c.interrupts
    then none
    else if c.ncli == 0
    then none
    else some (record c { ncli = c.ncli - 1; interrupts = (c.ncli - 1 == 0) && c.intena })

-- `struct spinlock`
pub record Spinlock : Type 0 where
  pub locked : Bool
  pub cpu : Option ℕ

abbrev pub initlock : Spinlock
initlock = record { locked = false; cpu = none }

pub record Machine : Type 0 where
  pub cpus : ℕ → Cpu
  pub locks : ℕ → Spinlock

abbrev pub holding : Machine → ℕ → ℕ → Bool
holding m p l = (m.locks l).locked && same_ptr (m.locks l).cpu (some p)

-- One try of `acquire`: it takes the lock, or spins and tries the exchange again.
pub data Acquired : Type 0 where
  takes : Machine → Acquired
  spins : Machine → Acquired
  panics : Acquired

-- `while (xchg(&lk->locked, 1) != 0);` once, and what follows it.
unfoldable pub try_lock : Machine → ℕ → ℕ → Acquired
try_lock m p l =
    if (m.locks l).locked
    then spins m
    else takes (record m { locks = update m.locks l (record { locked = true; cpu = some p }) })

unfoldable pub acquire : Machine → ℕ → ℕ → Acquired
unfolding pushcli try_lock
acquire m p l =
    let m1 = record m { cpus = update m.cpus p (pushcli (m.cpus p)) } in
    if holding m1 p l then panics else try_lock m1 p l

-- `none` is a panic.
unfoldable pub release : Machine → ℕ → ℕ → Option Machine
unfolding popcli
release m p l =
    if holding m p l
    then elim (popcli (m.cpus p)) [
      | none ↦ none
      | some c ↦ some (record { cpus = update m.cpus p c; locks = update m.locks l initlock })
    ]
    else none

-- `struct sleeplock`, less its spinlock; `n` below numbers the lock's address.
pub record Sleeplock : Type 0 where
  pub locked : Bool
  pub pid : ℕ

abbrev pub initsleeplock : Sleeplock
initsleeplock = record { locked = false; pid = 0 }

-- One round of `acquiresleep`: the lock is taken, or the process sleeps and starts over when woken.
pub data Slept : Type 0 where
  has_lock : Sleeplock → Slept
  sleeps : Kernel → Slept

unfoldable pub acquiresleep : Kernel → ℕ → ℕ → Sleeplock → Slept
acquiresleep k cur n lk =
    if lk.locked
    then sleeps (sleep_on k cur (other n))
    else has_lock (record { locked = true; pid = (k.procs cur).pid })

unfoldable pub releasesleep : Kernel → ℕ → Sleeplock → Sleeplock × Kernel
releasesleep k n lk = (initsleeplock, wakeup1 k (other n))

abbrev pub holdingsleep : Sleeplock → Bool
holdingsleep lk = lk.locked
