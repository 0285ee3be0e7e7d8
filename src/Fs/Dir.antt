-- ===== src/Fs/Dir.antt =====
-- fs.c: directories. `find_entry` and `find_free` are the loops of `dirlookup` and `dirlink` on the
-- directory's own inode; `dirlookup` and `dirlink` work on the cache. A name is the list of its bytes.
use dockv6_project.Base.{
  ℕ, zero, suc, ◌+◌, ◌-◌, ◌/◌, ◌%◌, ◌==◌, if◌then◌else◌, ltb, ◌&&◌, not, Bool, true, false, Option,
  none, some, List,
}
use dockv6_project.Base.Int.{is_zero}
use dockv6_project.CString.{View, bytes, strncmp, strncpy}
use dockv6_project.Fs.{Dev, Result, panics, returns}
use dockv6_project.Fs.Inode.{Dinode, t_dir, get_half, Io, readi, writei}
use dockv6_project.Fs.Icache.{Cache, Run, stops, waits, ends, set_inode, iget, iput}

abbrev pub dirsiz : ℕ
dirsiz = 14

-- `sizeof(struct dirent)`
abbrev pub dirent_size : ℕ
dirent_size = 16

-- `de.inum` and `de.name`
abbrev pub de_inum : View → ℕ
de_inum de = get_half de 0

abbrev pub de_name : View → View
de_name de i = de (2 + i)

-- `namecmp(name, de.name) == 0`
unfoldable pub same_entry : List ℕ → View → Bool
same_entry name de = is_zero (strncmp (bytes name) (de_name de) dirsiz)

-- `readi(dp, (char *)&de, off, sizeof(de)) != sizeof(de)` is a panic.
unfoldable pub read_entry : (ℕ → Bool) → Dev → Dinode → ℕ → Result (View × Dinode × Dev)
read_entry has d ip off = elim (readi has d ip (λ _. 0) off dirent_size) [
  | panics d' ↦ panics d'
  | returns (Io.done r, ip', d') ↦ if r.0 == dirent_size then returns (r.1, ip', d') else panics d'
  | returns (Io.fails, ip', d') ↦ panics d'
  | returns (Io.device major n, ip', d') ↦ panics d'
]

-- The loop of `dirlookup` from `off` on: the offset and the inode number of the entry.
unfoldable pub find_entry :
    ℕ → (ℕ → Bool) → Dev → Dinode → List ℕ → ℕ → Result (Option (ℕ × ℕ) × Dinode × Dev)
unfolding read_entry same_entry
find_entry zero has d ip name off = returns (none, ip, d)
find_entry (suc fuel) has d ip name off =
    if ltb off ip.size
    then elim (read_entry has d ip off) [
      | panics d' ↦ panics d'
      | returns r ↦
          if not (de_inum r.0 == 0) && same_entry name r.0
          then returns (some (off, de_inum r.0), r.1, r.2)
          else find_entry fuel has r.2 r.1 name (off + dirent_size)
    ]
    else returns (none, ip, d)

-- The loop of `dirlink`: the offset of the first free entry, or the end.
unfoldable pub find_free : ℕ → (ℕ → Bool) → Dev → Dinode → ℕ → Result (ℕ × Dinode × Dev)
unfolding read_entry
find_free zero has d ip off = returns (off, ip, d)
find_free (suc fuel) has d ip off =
    if ltb off ip.size
    then elim (read_entry has d ip off) [
      | panics d' ↦ panics d'
      | returns r ↦
          if de_inum r.0 == 0
          then returns (off, r.1, r.2)
          else find_free fuel has r.2 r.1 (off + dirent_size)
    ]
    else returns (off, ip, d)

-- How many rounds the loops take.
abbrev pub entries : Dinode → ℕ
entries ip = (ip.size + 15) / dirent_size

-- The cache with the directory `i` and the disk as an operation has left them.
abbrev pub with_node : Cache → ℕ → Dinode → Dev → Cache
with_node c i ip d = set_inode (record c { disk = d }) i (record (c.inode i) { node = ip })

-- The entry of the name: its inode, with one reference more, and its offset.
unfoldable pub dirlookup : (ℕ → Bool) → Cache → ℕ → List ℕ → Run (Option (ℕ × ℕ) × Cache)
unfolding find_entry
dirlookup has c i name =
    let ip = (c.inode i).node in
    if ip.itype == t_dir
    then elim (find_entry (entries ip) has c.disk ip name 0) [
      | panics d ↦ stops
      | returns (none, ip', d) ↦ ends (none, with_node c i ip' d)
      | returns (some (off, inum), ip', d) ↦
          elim (iget (with_node c i ip' d) (c.inode i).dev inum) [
            | stops ↦ stops
            | waits ↦ waits
            | ends r ↦ ends (some (r.0, off), r.1)
          ]
    ]
    else stops

-- `strncpy(de.name, name, DIRSIZ); de.inum = inum;`
abbrev pub dirent : List ℕ → ℕ → View
dirent name inum i =
    if i == 0
    then inum % 256
    else if i == 1
    then inum / 256 % 256
    else strncpy (λ _. 0) (bytes name) dirsiz (i - 2)

-- The write of the entry at `off`.
unfoldable pub write_entry :
    (ℕ → Bool) → Cache → ℕ → List ℕ → ℕ → ℕ → Dinode → Dev → Run (Bool × Cache)
write_entry has c i name inum off ip d =
    elim (writei has d (c.inode i).inum ip (dirent name inum) off dirent_size) [
      | panics d' ↦ stops
      | returns (Io.done n, ip', d') ↦
          if n == dirent_size then ends (true, with_node c i ip' d') else stops
      | returns (Io.fails, ip', d') ↦ stops
      | returns (Io.device major n, ip', d') ↦ stops
    ]

-- `dirlink` for a name that the directory has not.
unfoldable pub add_entry : (ℕ → Bool) → Cache → ℕ → List ℕ → ℕ → Run (Bool × Cache)
unfolding find_free write_entry
add_entry has c i name inum =
    let ip = (c.inode i).node in
    elim (find_free (entries ip) has c.disk ip 0) [
      | panics d ↦ stops
      | returns (off, ip', d) ↦ write_entry has c i name inum off ip' d
    ]

-- True is the return of 0, false that of -1.
unfoldable pub dirlink : (ℕ → Bool) → Cache → ℕ → List ℕ → ℕ → Run (Bool × Cache)
unfolding dirlookup add_entry
dirlink has c i name inum = elim (dirlookup has c i name) [
  | stops ↦ stops
  | waits ↦ waits
  | ends (some r, c') ↦ elim (iput c' r.0) [
    | stops ↦ stops
    | waits ↦ waits
    | ends c2 ↦ ends (false, c2)
  ]
  | ends (none, c') ↦ add_entry has c' i name inum
]
