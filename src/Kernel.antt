-- ===== src/Kernel.antt =====
-- The data of proc.h, cm.h and the tables at the top of proc.c.
-- A table (`ptable.proc`, `mtable.mux`, `containers.Arr`, `pqueue.Arr`) is a function of the index,
-- and a pointer into one is an index, or `none` for a null pointer. `uint` fields wrap at 2^32.
use dockv6_project.Base.{ℕ, ◌+◌, ◌-◌, ◌%◌, ◌^◌, ◌==◌, Bool, false, Option, none, update}
use dockv6_project.CString.{View}
use dockv6_project.Kalloc.{Kmem}

abbrev pub nproc_max : ℕ
nproc_max = 64

abbrev pub mux_maxnum : ℕ
mux_maxnum = 16

abbrev pub max_num_containers : ℕ
max_num_containers = 4

abbrev pub nbin : ℕ
nbin = 16

-- `enum procstate`
pub data ProcState : Type 0 where
  unused embryo sleeping runnable running zombie : ProcState

abbrev pub is_unused : ProcState → Bool
is_unused unused = Bool.true
is_unused _ = false

abbrev pub is_sleeping : ProcState → Bool
is_sleeping sleeping = Bool.true
is_sleeping _ = false

abbrev pub is_runnable : ProcState → Bool
is_runnable runnable = Bool.true
is_runnable _ = false

abbrev pub is_running : ProcState → Bool
is_running running = Bool.true
is_running _ = false

abbrev pub is_zombie : ProcState → Bool
is_zombie zombie = Bool.true
is_zombie _ = false

-- `void *chan`: the address slept on. The kernel sleeps on process entries, on mutexes, and on
-- fields of other structures, which `other` numbers.
pub data Chan : Type 0 where
  null_chan : Chan
  on_proc : ℕ → Chan
  on_mutex : ℕ → Chan
  other : ℕ → Chan

-- `p->chan == chan`
abbrev pub same_chan : Chan → Chan → Bool
same_chan null_chan null_chan = Bool.true
same_chan (on_proc a) (on_proc b) = a == b
same_chan (on_mutex a) (on_mutex b) = a == b
same_chan (other a) (other b) = a == b
same_chan _ _ = false

-- `struct proc`, less its register frames, open files, directory and shared pages.
pub record Proc : Type 0 where
  pub sz : ℕ
  pub pgdir : ℕ
  pub kstack : ℕ
  pub state : ProcState
  pub pid : ℕ
  pub parent : Option ℕ
  pub chan : Chan
  pub killed : Bool
  pub name : View
  pub container : Option ℕ
  pub container_id : ℕ
  pub mutex : ℕ → Option ℕ
  pub priority : ℕ
  pub next : Option ℕ

-- `struct mutex`
pub record Mutex : Type 0 where
  pub locked : Bool
  pub is_alloc : Bool
  pub pid : ℕ
  pub name : View
  pub refcount : ℕ
  pub container_id : ℕ
  pub cv : Bool

-- `struct container`, less its root inode and its two strings.
pub record Container : Type 0 where
  pub container_id : ℕ
  pub nproc : ℕ

-- `struct list`, a bin of the priority queue.
pub record Bin : Type 0 where
  pub head : Option ℕ
  pub tail : Option ℕ
  pub size : ℕ

-- The kernel's tables, and the page allocator's state. `kstack` and `pgdir` are addresses, 0 if null.
pub record Kernel : Type 0 where
  pub procs : ℕ → Proc
  pub mux : ℕ → Mutex
  pub containers : ℕ → Container
  pub bins : ℕ → Bin
  pub initproc : ℕ
  pub nextpid : ℕ
  pub nextcid : ℕ
  pub kmem : Kmem

-- `(uint)-1`, which marks a free container and a container with no limit.
abbrev pub no_id : ℕ
no_id = 2 ^ 32 - 1

abbrev pub set_proc : Kernel → ℕ → Proc → Kernel
set_proc k i p = record k { procs = update k.procs i p }

abbrev pub set_mux : Kernel → ℕ → Mutex → Kernel
set_mux k i m = record k { mux = update k.mux i m }

abbrev pub set_container : Kernel → ℕ → Container → Kernel
set_container k i c = record k { containers = update k.containers i c }

abbrev pub set_bin : Kernel → ℕ → Bin → Kernel
set_bin k i b = record k { bins = update k.bins i b }

-- The tables as the linker leaves them: all bytes 0. `initproc` is set by `userinit`.
abbrev pub blank_proc : Proc
blank_proc = record {
  sz = 0;
  pgdir = 0;
  kstack = 0;
  state = unused;
  pid = 0;
  parent = none;
  chan = null_chan;
  killed = false;
  name = λ _. 0;
  container = none;
  container_id = 0;
  mutex = λ _. none;
  priority = 0;
  next = none;
}

abbrev pub blank_mutex : Mutex
blank_mutex = record {
  locked = false;
  is_alloc = false;
  pid = 0;
  name = λ _. 0;
  refcount = 0;
  container_id = 0;
  cv = false;
}

abbrev pub blank_bin : Bin
blank_bin = record { head = none; tail = none; size = 0 }

-- `refcount++` and `refcount--`, on the bit pattern of an `int`.
abbrev pub inc32 : ℕ → ℕ
inc32 n = (n + 1) % 2 ^ 32

abbrev pub dec32 : ℕ → ℕ
dec32 n = (n + 2 ^ 32 - 1) % 2 ^ 32

-- After `pinit`, `cinit` and `queueinit`.
abbrev pub boot : Kernel
boot = record {
  procs = λ _. blank_proc;
  mux = λ _. blank_mutex;
  containers = λ _. record { container_id = no_id; nproc = no_id };
  bins = λ _. blank_bin;
  initproc = 0;
  nextpid = 1;
  nextcid = 1;
  kmem = record { memory = λ _. 0; use_lock = false; freelist = 0 };
}
