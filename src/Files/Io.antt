-- ===== src/Files/Io.antt =====
-- file.c: `filestat` and `fileread` on the inode layer. A file's `ip` is the index of its inode in the
-- cache; `pipes` are the pipes at their addresses.
use dockv6_project.Base.{
  ℕ, ◌+◌, ◌%◌, ◌^◌, if◌then◌else◌, ltb, ◌&&◌, not, Bool, Option, none, some, update,
}
use dockv6_project.CString.{View}
use dockv6_project.Pipe.{Pipe, ReadEnd, piperead}
use dockv6_project.Fs.{Dev, Result, panics, returns}
use dockv6_project.Fs.Inode.{Dinode, Io, fails, device, done, readi}
use dockv6_project.Fs.Icache.{Cache, Run, stops, waits, ends, ilock, iunlock, Stat, stati}
use dockv6_project.Fs.Dir.{with_node}
use dockv6_project.Files.{Files, fd_none, fd_pipe, fd_inode}

-- `none` is the return of -1.
unfoldable pub filestat : Files → Cache → ℕ → ℕ → Run (Option Stat × Cache)
filestat t c pid f = elim (t f).type [
  | fd_none ↦ ends (none, c)
  | fd_pipe ↦ ends (none, c)
  | fd_inode ↦ elim (ilock c pid (t f).ip) [
    | stops ↦ stops
    | waits ↦ waits
    | ends c' ↦ elim (iunlock c' pid (t f).ip) [
      | stops ↦ stops
      | waits ↦ waits
      | ends c2 ↦ ends (some (stati (c'.inode (t f).ip)), c2)
    ]
  ]
]

pub data FileRead : Type 0 where
  -- a panic, with the disk as it is then
  panicked : Dev → FileRead
  -- waits for the lock of the inode
  sleeps : FileRead
  -- returns -1 for a file that is not readable
  refused : FileRead
  -- what `piperead` comes to
  from_pipe : ReadEnd → FileRead
  -- calls the device's routine for `n` bytes, in `readi`
  from_device : (major n : ℕ) → Cache → FileRead
  -- returns the count of bytes that are in the buffer, or -1
  returned : Option (ℕ × View) → Files → Cache → FileRead

-- `if (r > 0) f->off += r;`
abbrev pub advance : Files → ℕ → ℕ → Files
advance t f r =
    if ltb 0 r && ltb r (2 ^ 31)
    then update t f (record (t f) { off = ((t f).off + r) % 2 ^ 32 })
    else t

-- `iunlock(f->ip); return r;`
unfoldable pub unlock_and_return : Cache → ℕ → ℕ → Option (ℕ × View) → Files → FileRead
unlock_and_return c pid i r t = elim (iunlock c pid i) [
  | stops ↦ panicked c.disk
  | waits ↦ sleeps
  | ends c' ↦ returned r t c'
]

-- What follows `readi`.
unfoldable pub after_read : Files → Cache → ℕ → ℕ → Result (Io (ℕ × View) × Dinode × Dev) → FileRead
unfolding unlock_and_return
after_read t c pid f (panics d) = panicked d
after_read t c pid f (returns (fails, ip, d)) =
    unlock_and_return (with_node c (t f).ip ip d) pid (t f).ip none t
after_read t c pid f (returns (device major n, ip, d)) =
    from_device major n (with_node c (t f).ip ip d)
after_read t c pid f (returns (done r, ip, d)) =
    unlock_and_return (with_node c (t f).ip ip d) pid (t f).ip (some r) (advance t f r.0)

unfoldable pub fileread :
    (ℕ → Bool) → Files → Cache → (ℕ → Pipe) → ℕ → Bool → ℕ → View → ℕ → FileRead
unfolding after_read
fileread has t c pipes pid killed f dst n =
    if not (t f).readable then refused else elim (t f).type [
      | fd_none ↦ panicked c.disk
      | fd_pipe ↦ from_pipe (piperead (pipes (t f).pipe) killed n)
      | fd_inode ↦ elim (ilock c pid (t f).ip) [
        | stops ↦ panicked c.disk
        | waits ↦ sleeps
        | ends c' ↦
            after_read t c' pid f (readi has c'.disk (c'.inode (t f).ip).node dst (t f).off n)
      ]
    ]
