-- ===== src/Fs/Icache.antt =====
-- fs.c: the cache of inodes. A pointer to an inode is its index in `icache.inode`; `ref` is the bit
-- pattern of an `int`. `icache.lock` is held within one step. `pid` is the process that calls.
use dockv6_project.Base.{
  ℕ, zero, suc, ◌-◌, ◌^◌, ◌==◌, if◌then◌else◌, ltb, ◌&&◌, ◌||◌, not, Bool, true, false, Option,
  none, some, is_null, same_ptr, update, find_first,
}
use dockv6_project.CString.{View, memset}
use dockv6_project.Kernel.{inc32, dec32}
use dockv6_project.Fs.{Dev, panics, returns, logged_write}
use dockv6_project.Fs.Inode.{Dinode, iblock, inode_at, put_half, read_dinode, iupdate, itrunc}

abbrev pub ninode : ℕ
ninode = 50

-- `struct inode`: its lock is held by the process that `locked` gives.
pub record Inode : Type 0 where
  pub dev : ℕ
  pub inum : ℕ
  pub ref : ℕ
  pub locked : Option ℕ
  pub valid : Bool
  pub node : Dinode

pub record Cache : Type 0 where
  pub disk : Dev
  pub inode : ℕ → Inode

-- A call stops with a panic, waits for a lock, or ends with its result.
pub data Run {ℓ} (A : Type ℓ) : Type ℓ where
  stops : Run A
  waits : Run A
  ends : A → Run A

-- `ref > 0`
abbrev pub referenced : Inode → Bool
referenced ip = ltb 0 ip.ref && ltb ip.ref (2 ^ 31)

abbrev pub is_for : ℕ → ℕ → Inode → Bool
is_for dev inum ip = referenced ip && (ip.dev == dev) && (ip.inum == inum)

-- The loop of `iget`, with `n` entries left from `i` on: the entry that is cached, or else the first
-- empty one.
pub data Scan : Type 0 where
  cached : ℕ → Scan
  free_slot : Option ℕ → Scan

unfoldable pub iget_scan : ℕ → ℕ → (ℕ → Inode) → ℕ → ℕ → Option ℕ → Scan
iget_scan zero i inode dev inum empty = free_slot empty
iget_scan (suc n) i inode dev inum empty =
    let rest =
      iget_scan n (suc i) inode dev inum
        (if is_null empty && ((inode i).ref == 0) then some i else empty) in
    if is_for dev inum (inode i) then cached i else rest

abbrev pub set_inode : Cache → ℕ → Inode → Cache
set_inode c i ip = record c { inode = update c.inode i ip }

abbrev pub ref_up : Inode → Inode
ref_up ip = record ip { ref = inc32 ip.ref }

-- `empty->dev = dev; empty->inum = inum; empty->ref = 1; empty->valid = 0;`
abbrev pub recycled : Inode → ℕ → ℕ → Inode
recycled ip dev inum = record ip { dev = dev; inum = inum; ref = 1; valid = false }

unfoldable pub iget : Cache → ℕ → ℕ → Run (ℕ × Cache)
iget c dev inum = elim (iget_scan ninode 0 c.inode dev inum none) [
  | cached i ↦ ends (i, set_inode c i (ref_up (c.inode i)))
  | free_slot none ↦ stops
  | free_slot (some i) ↦ ends (i, set_inode c i (recycled (c.inode i) dev inum))
]

unfoldable pub idup : Cache → ℕ → Cache
idup c i = set_inode c i (ref_up (c.inode i))

-- The inode as it stands in its block.
abbrev pub on_disk : Dev → ℕ → Dinode
on_disk d inum = read_dinode (d.block (iblock d.sb inum)) (inode_at inum)

-- `ilock` once it has the lock.
unfoldable pub load : Cache → ℕ → ℕ → Run Cache
load c pid i =
    let ip = record (c.inode i) { locked = some pid } in
    if ip.valid
    then ends (set_inode c i ip)
    else if (on_disk c.disk ip.inum).itype == 0
    then stops
    else ends (set_inode c i (record ip { node = on_disk c.disk ip.inum; valid = true }))

unfoldable pub ilock : Cache → ℕ → ℕ → Run Cache
unfolding load
ilock c pid i =
    if not (referenced (c.inode i))
    then stops
    else if is_null (c.inode i).locked
    then load c pid i
    else waits

unfoldable pub iunlock : Cache → ℕ → ℕ → Run Cache
iunlock c pid i =
    if not (same_ptr (c.inode i).locked (some pid)) || not (referenced (c.inode i))
    then stops
    else ends (set_inode c i (record (c.inode i) { locked = none }))

-- The end of `iput`, which has held the lock: it is free again, and one reference is gone.
abbrev pub put_back : Cache → ℕ → Inode → Cache
put_back c i ip = set_inode c i (record ip { locked = none; ref = dec32 ip.ref })

-- An inode without links and without other references: its content and itself are freed.
unfoldable pub free_inode : Cache → ℕ → Run Cache
free_inode c i = elim (itrunc c.disk (c.inode i).inum (c.inode i).node) [
  | panics d ↦ stops
  | returns r ↦
      let node = record r.0 { itype = 0 } in
      ends (
        put_back (record c { disk = iupdate r.1 (c.inode i).inum node }) i
          (record (c.inode i) { node = node; valid = false }))
]

unfoldable pub iput : Cache → ℕ → Run Cache
unfolding free_inode
iput c i =
    let ip = c.inode i in
    if is_null ip.locked
    then if ip.valid && (ip.node.nlink == 0) && (ip.ref == 1)
      then free_inode c i
      else ends (put_back c i ip)
    else waits

unfoldable pub iunlockput : Cache → ℕ → ℕ → Run Cache
unfolding iunlock iput
iunlockput c pid i = elim (iunlock c pid i) [ stops ↦ stops | waits ↦ waits | ends c' ↦ iput c' i ]

-- `memset(dip, 0, sizeof(*dip)); dip->type = type;`
abbrev pub new_dinode : View → ℕ → ℕ → View
new_dinode v a itype = put_half (memset v a 0 64) a itype

unfoldable pub ialloc : Cache → ℕ → ℕ → Run (ℕ × Cache)
unfolding iget
ialloc c dev itype =
    let d = c.disk in
    elim (find_first (d.sb.ninodes - 1) 1 (λ inum. (on_disk d inum).itype == 0)) [
      | none ↦ stops
      | some inum ↦
          let b = iblock d.sb inum in
          let d' = logged_write d b (new_dinode (d.block b) (inode_at inum) itype) in
          iget (record c { disk = d' }) dev inum
    ]

-- `struct stat`
pub record Stat : Type 0 where
  pub dev : ℕ
  pub ino : ℕ
  pub itype : ℕ
  pub nlink : ℕ
  pub size : ℕ

abbrev pub stati : Inode → Stat
stati ip = record {
  dev = ip.dev;
  ino = ip.inum;
  itype = ip.node.itype;
  nlink = ip.node.nlink;
  size = ip.node.size;
}
