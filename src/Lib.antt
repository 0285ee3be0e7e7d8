-- ===== src/Lib.antt =====
-- dockv6 is xv6 for the x86 with containers, named mutexes with condition variables, shared pages
-- and a priority queue. This library models its core in C: the process table with its scheduler,
-- the mutexes, the priority queue, the page allocator, page tables and shared pages, pipes, the
-- file system with its redo log, buffer cache and file table, and the byte routines.
--
-- Parts and files. A file models the C source that its first comment names; a definition has the
-- name of the C function where it models a whole one. Files below a folder prove.
-- * CString (string.c): strncmp, memcmp, strncpy, safestrcpy, strlen on views of a buffer, and
--   memmove and memset on the memory. Compare, Copy, Move and Fill prove what they do.
-- * Kalloc (kalloc.c; PGSIZE and PGROUNDUP of mmu.h, KERNBASE, PHYSTOP and V2P of memlayout.h):
--   kfree, freerange, kinit1, kinit2, kalloc. The links of the free list are words of the memory;
--   Words says that such a word is read back. FreeList and Range relate it to a list of pages.
-- * Vm (vm.c; mmu.h, memlayout.h): walkpgdir, mappages, uva2ka, allocuvm and deallocuvm on page
--   tables in the memory of Kalloc; Walk proves what a mapping leads to. Vm/Shared (vm.c,
--   shmem.h): shm_get and shm_rem; Sharing says which page a process gets.
-- * Kernel (proc.h, cm.h and the tables of proc.c): the state. `Kernel` is a record of the tables
--   ptable, mtable, containers and pqueue, of initproc, nextpid and nextcid, and of kmem.
-- * Queue (proc.c): queueinit, pqueue_enqueue, prio_set. Enqueue relates a bin to a list, Moves
--   and Priority say whom prio_set serves and how, Kept what it leaves alone, and Lost follows a
--   process that is enqueued twice.
-- * Process (proc.c): pinit, allocproc, the scheduler's choice, yield, sleep, wakeup, wait and
--   exit. Wakeup, Family, Orphans and Alloc prove what each does to the table.
-- * Mutex (proc.c): mutex_create, mutex_delete, mutex_lock, mutex_unlock, cv_wait, cv_signal and
--   kill, with the loop of exit that leaves the mutexes. Create, Holder, Signals, Refs, Kills and
--   Freed prove who gets a mutex, who holds it, and when it is freed.
-- * Lifecycle (proc.c): the operations on the process table as a step relation; States and Pids
--   prove what holds however the kernel runs.
-- * Containers (proc.c, cm.h): fork with a container's quota, cm_maxproc and cm_create_and_enter.
--   Fork and Child follow the new process, Quota the ids of containers.
-- * Pipe (pipe.c): pipeclose, pipewrite, piperead; Contents and Transfer relate a pipe to the
--   bytes that are in it.
-- * Log (log.c): begin_op, end_op, log_write, commit and recovery. Of bio.c it takes what bread
--   and bwrite give the log. Header, Copies, Settled and Install carry the proofs, Recovery and
--   Atomic say what is on the disk after a crash, Transaction what is in the header in memory.
-- * Bio (bio.c, buf.h): binit, bget and brelse on the list of buffers. Unique says which buffer
--   bget takes.
-- * Fs (fs.c, fs.h): balloc and bfree; Bits, Alloc and Freeing prove what they do to the free
--   map.
-- * Fs/Inode (fs.c, stat.h): bmap, itrunc, iupdate, readi and writei. Owned, Bmap and Table say
--   which block a file's block is; Content, Dinodes, Writes, Reads, FileIo and ReadBack relate
--   readi and writei to an array of bytes; Truncate and Emptied say what itrunc frees.
-- * Fs/Icache (fs.c, file.h): iget, idup, ilock, iunlock, iput, ialloc, stati. References and
--   Lifetime prove what happens to an entry.
-- * Fs/Dir (fs.c): dirlookup and dirlink; Lookup finds a name in the bytes of a directory.
-- * Fs/Path (fs.c): skipelem, namex, namei, nameiparent; Elements takes a path apart, Rounds
--   bounds the loop.
-- * Files (file.c, file.h): filealloc, filedup and fileclose. Sharing follows a file that several
--   descriptors share. Files/Io: filestat and fileread on Fs/Icache and Pipe; Reading follows
--   fileread.
-- * UserLib (ulib.c, printf.c): atoi and printint; Numerals proves the round trip.
-- * Locks (spinlock.c, sleeplock.c): acquire, release, pushcli, popcli and the sleep locks;
--   Nesting follows interrupts through nested critical sections.
-- * Base holds the shared helpers: tests on numbers and pointers, tables, integers, sums.
--
-- State and interaction. allocproc takes a page from Kalloc and enqueues in Queue; wait gives the
-- page back; sleep and wakeup of Process are what Mutex blocks and signals with; kill runs through
-- Mutex and Process; exit leaves the mutexes through mutex_delete. Vm takes pages from Kalloc and
-- puts its tables into them; Fs/Path walks with Fs/Dir, which reads and writes directories with
-- readi and writei of Fs/Inode through the cache of Fs/Icache, and these take blocks with balloc
-- and bfree of Fs. Fs keeps the numbers of the blocks that it passes to log_write; what becomes of
-- them is Log. Pointers into a table are indices, a null pointer is `none`. A definition is what
-- the code does in one critical section, together with a wakeup that directly follows it; where
-- the code sleeps, or gives up a lock in the middle, the model stops there and goes on with the
-- next definition, so that other steps may come between. Exceptions are fork and
-- cm_create_and_enter, shm_get and shm_rem, and the calls of the file system, which are one step
-- each although they take their locks several times. The process that makes a call is the argument
-- `cur`.
--
-- Numbers, bounds and fuel. `uint` fields wrap at 2^32. nextpid, nextcid and a bin's size are C
-- `int`s whose overflow is undefined there; the model counts on. NPROC is 64, MUX_MAXNUM 16, NBIN
-- 16. The `int` of atoi and printint is its bit pattern. strlen, atoi, printint, freerange and
-- prio_set take fuel: strlen and atoi need more than the length, printint as much as there are
-- digits, freerange more than the number of pages, the walk of prio_set more than the processes
-- between caller and target; its search runs on the links of a bin, which the code may close to a
-- circle, and it then gives `out_of_fuel` with any fuel. The loops of readi and writei have as
-- much fuel as there are bytes, balloc a round for each block of its map, dirlookup and dirlink
-- one for each entry of the directory. namex takes fuel, more than the path has elements; so do
-- the loops over page tables, more than there are pages, and give `out_of_fuel` with less; the
-- searches of bget have one round more than there are buffers. In Log the number of disk writes
-- before the machine stops is a field of the store. A result `fault`, `faulted` or, where a
-- comment says so, `none` stands for an access through a null pointer or behind an array, such as
-- a copy of a name that is too long for its array, or a priority of prio_set that is no bin. The
-- code tests neither the index of a slot that the mutex calls are given nor the priority that
-- allocproc passes to pqueue_enqueue: the definitions are meant for slots below MUX_MAXNUM and
-- priorities below NBIN, and theorems that need it say so.
--
-- Not modelled. The spin locks round the other parts (a critical section is a step), register
-- frames and context switches. Of vm.c setupkvm, freevm, copyuvm, loaduvm and copyout (freevm and
-- copyuvm are parameters of the process model, and fork's copy of the shared pages is not in it),
-- and a container's init string, which the code keeps behind a pointer that nothing sets. The
-- linker's symbol `end` (a parameter). Of the file system filewrite, the system calls of
-- sysfile.c, and the transfer between a buffer and the disk. Devices, boot, system call dispatch,
-- exec, the rest of the user library, and the user programs. The disk writes a block as a whole.
pub mod Base
pub mod Bio
pub mod CString
pub mod Kalloc
pub mod Kernel
pub mod Queue
pub mod Process
pub mod Mutex
pub mod Lifecycle
pub mod Containers
pub mod Pipe
pub mod Files
pub mod Fs
pub mod Locks
pub mod Log
pub mod UserLib
pub mod Vm
