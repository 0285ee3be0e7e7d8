-- ===== src/Files.antt =====
-- The table of open files of file.c: `filealloc`, `filedup` and `fileclose`. A file is shared by the
-- descriptors that `ref` counts.
pub mod Sharing
pub mod Io
pub mod Reading
mod Tests
use dockv6_project.Base.{
  ℕ, ◌+◌, ◌==◌, if◌then◌else◌, ltb, Bool, false, Option, none, some, update, find_first,
}
use dockv6_project.Kernel.{inc32, dec32}

abbrev pub nfile : ℕ
nfile = 100

-- `type`
pub data FileType : Type 0 where
  fd_none fd_pipe fd_inode : FileType

-- `struct file`; `pipe` and `ip` are pointers. `ref` is never below 0.
pub record File : Type 0 where
  pub type : FileType
  pub ref : ℕ
  pub readable : Bool
  pub writable : Bool
  pub pipe : ℕ
  pub ip : ℕ
  pub off : ℕ

-- `ftable.file`
abbrev pub Files : Type 0
Files = ℕ → File

unfoldable pub filealloc : Files → Option ℕ × Files
filealloc t = elim (find_first nfile 0 (λ i. (t i).ref == 0)) [
  | none ↦ (none, t)
  | some i ↦ (some i, update t i (record (t i) { ref = 1 }))
]

-- `none` is a panic.
unfoldable pub filedup : Files → ℕ → Option Files
filedup t i =
    if ltb (t i).ref 1 then none else some (update t i (record (t i) { ref = inc32 (t i).ref }))

pub data Closed : Type 0 where
  panicked : Closed
  -- other descriptors still share the file
  shared : Files → Closed
  -- calls `pipeclose(ff.pipe, ff.writable)`
  closes_pipe : ℕ → Bool → Files → Closed
  -- calls `iput(ff.ip)` in a transaction
  puts_inode : ℕ → Files → Closed
  -- a file that was never set up
  freed : Files → Closed

-- What follows the release of the lock, for the copy `ff` of the file.
unfoldable pub after_release : File → Files → Closed
after_release ff t = elim ff.type [
  | fd_pipe ↦ closes_pipe ff.pipe ff.writable t
  | fd_inode ↦ puts_inode ff.ip t
  | fd_none ↦ freed t
]

unfoldable pub fileclose : Files → ℕ → Closed
unfolding after_release
fileclose t i =
    if ltb (t i).ref 1
    then panicked
    else (let ff = record (t i) { ref = dec32 (t i).ref } in
        if ltb 0 ff.ref
        then shared (update t i ff)
        else after_release ff (update t i (record ff { ref = 0; type = fd_none })))
