-- ===== src/Fs/Lifetime.antt =====
-- An inode of fs.c between disk and cache: `iupdate`, `ilock`, and the last `iput`.
use dockv6_project.Base.{
  ℕ, ◌<◌, ◌≡◌, ◌≢◌, refl, arith, sym, ap, ◌∙◌, subst, ◌==◌, true, false, none, some,
}
use dockv6_project.Fs.{Dev, returns, logged_write}
use dockv6_project.Fs.Alloc.{used}
use dockv6_project.Fs.Inode.{
  Dinode, maxfile, iblock, inode_at, read_dinode, write_dinode, iupdate, itrunc,
}
use dockv6_project.Fs.Owned.{DataBlock, write_used}
use dockv6_project.Fs.Bmap.{addr_of, FileOk}
use dockv6_project.Fs.Content.{Foreign}
use dockv6_project.Fs.Dinodes.{Fits, SameNode, read_dinode-write_dinode, free-write_dinode}
use dockv6_project.Fs.Emptied.{itrunc-Emptied}
use dockv6_project.Fs.Icache.{
  Inode, Cache, ends, referenced, set_inode, on_disk, load, ilock, put_back, free_inode, iput,
}

-- `iupdate` leaves the inode on the disk.
on_disk-iupdate :
    (d : Dev) (inum : ℕ) (ip : Dinode) → Fits ip → SameNode ip (on_disk (iupdate d inum ip) inum)
unfolding iupdate
on_disk-iupdate d inum ip f =
    let b = iblock d.sb inum in
    let v = write_dinode (d.block b) (inode_at inum) ip in
    let at : (logged_write d b v).block b ≡ v = ground arith in
    subst (λ w. SameNode ip (read_dinode w (inode_at inum))) (sym at)
      (read_dinode-write_dinode (d.block b) (inode_at inum) ip f)

-- What `ilock` gives for an entry that is not valid yet.
pub record Loaded (node : Dinode) (pid i : ℕ) (c' : Cache) : Type 0 where
  pub same : SameNode node (c'.inode i).node
  pub valid : (c'.inode i).valid ≡ true
  pub locked : (c'.inode i).locked ≡ some pid

-- An inode that `iupdate` has written is what `ilock` reads into a new entry for it, each field that
-- the disk holds; the entry is then valid and locked by the caller. The entry is referenced, free
-- and not valid, the inode has a type, and its fields fit their C types.
pub ilock-iupdate :
    (c : Cache) (d : Dev) (pid i : ℕ) (node : Dinode)
    → referenced (c.inode i) ≡ true
    → (c.inode i).locked ≡ none
    → (c.inode i).valid ≡ false
    → Fits node
    → node.itype ≢ 0
    → c.disk ≡ iupdate d (c.inode i).inum node
    → (c' : Cache) × (ilock c pid i ≡ ends c') × Loaded node pid i c'
unfolding ilock load
ilock-iupdate c d pid i node r free new f typed same =
    let ip = c.inode i in
    let found = on_disk c.disk ip.inum in
    let back : SameNode node found =
      subst (λ q. SameNode node (on_disk q ip.inum)) (sym same)
        (on_disk-iupdate d ip.inum node f) in
    let has_type : (found.itype == 0) ≡ false = ground (arith, back.itype, typed) in
    let ip' : Inode = record ip { locked = some pid; node = found; valid = true } in
    let at : (set_inode c i ip').inode i ≡ ip' = ground arith in
    (
      set_inode c i ip',
      rw (r, free, new, has_type) refl,
      record {
        same = subst (λ q. SameNode node q.node) (sym at) back;
        valid = ap (λ q. q.valid) at;
        locked = ap (λ q. q.locked) at;
      },
    )

-- What the last `iput` of an inode without links does.
pub record Dropped (c : Cache) (i : ℕ) (c' : Cache) : Type 0 where
  pub unreferenced : (c'.inode i).ref ≡ 0
  pub unlocked : (c'.inode i).locked ≡ none
  pub invalid : (c'.inode i).valid ≡ false
  pub free_on_disk : (on_disk c'.disk (c.inode i).inum).itype ≡ 0
  pub blocks_freed :
      (k : ℕ)
      → k < maxfile
      → addr_of c.disk (c.inode i).node k ≢ 0
      → used c'.disk (addr_of c.disk (c.inode i).node k) ≡ 0
  pub others : (j : ℕ) → j ≢ i → c'.inode j ≡ c.inode j

-- The inode is written without a type.
typeless :
    (d : Dev) (inum : ℕ) (ip : Dinode) → ip.itype ≡ 0 → (on_disk (iupdate d inum ip) inum).itype ≡ 0
unfolding iupdate
typeless d inum ip z =
    let b = iblock d.sb inum in
    let v = write_dinode (d.block b) (inode_at inum) ip in
    let at : (logged_write d b v).block b ≡ v = ground arith in
    rw at (free-write_dinode (d.block b) (inode_at inum) ip z)

used-iupdate :
    (d : Dev) (inum : ℕ) (ip : Dinode) (k : ℕ)
    → DataBlock d (iblock d.sb inum)
    → k < d.sb.size
    → used (iupdate d inum ip) k ≡ used d k
unfolding iupdate
used-iupdate d inum ip k o l = write_used d _ _ k o l

free_inode_steps :
    (c : Cache) (i : ℕ) (ip' : Dinode) (d' : Dev)
    → itrunc c.disk (c.inode i).inum (c.inode i).node ≡ returns (ip', d')
    → let node : Dinode = record ip' { itype = 0 } in
      free_inode c i
      ≡ ends (
          put_back
            (record c { disk = iupdate d' (c.inode i).inum node })
            i
            (record (c.inode i) { node = node; valid = false }))
unfolding free_inode
free_inode_steps c i ip' d' e = rw (free_inode, e) refl

iput_last :
    (c : Cache) (i : ℕ)
    → (c.inode i).locked ≡ none
    → (c.inode i).valid ≡ true
    → (c.inode i).node.nlink ≡ 0
    → (c.inode i).ref ≡ 1
    → iput c i ≡ free_inode c i
unfolding iput
iput_last c i free v nl one = ground (arith, free, v, nl, one)

-- The last `iput` of an inode without links never panics: it frees each of the file's blocks and the
-- inode on the disk, and the entry, so that `iget` and `ialloc` can use both again. The entry is
-- valid and not locked, its blocks are in use and lie apart, and the inode lies in a block of its own.
pub iput-Dropped :
    (c : Cache) (i : ℕ)
    → (c.inode i).locked ≡ none
    → (c.inode i).valid ≡ true
    → (c.inode i).node.nlink ≡ 0
    → (c.inode i).ref ≡ 1
    → FileOk c.disk (c.inode i).node
    → Foreign c.disk (c.inode i).node (iblock c.disk.sb (c.inode i).inum)
    → (c' : Cache) × (iput c i ≡ ends c') × Dropped c i c'
iput-Dropped c i free v nl one ok home =
    let ip = c.inode i in
    let d = c.disk in
    let (ip', d', e, em) = itrunc-Emptied d ip.inum ip.node ok home in
    let node : Dinode = record ip' { itype = 0 } in
    let d2 = iupdate d' ip.inum node in
    let place : iblock d'.sb ip.inum ≡ iblock d.sb ip.inum =
      ap (λ q. iblock q ip.inum) em.same_sb in
    let there : DataBlock d' (iblock d'.sb ip.inum) =
      subst (DataBlock d') (sym place) (em.others _ home) in
    let gone : Inode = record ip { node = node; valid = false } in
    let c' = put_back (record c { disk = d2 }) i gone in
    (
      c',
      iput_last c i free v nl one ∙ free_inode_steps c i ip' d' e,
      record {
        unreferenced = ground (arith, one);
        unlocked = ground arith;
        invalid = ground arith;
        free_on_disk = typeless d' ip.inum node refl;
        blocks_freed = λ k l nz.
            used-iupdate d' ip.inum node _ there (
              subst (λ q. addr_of d ip.node k < q.size) (sym em.same_sb)
                (ok.owns.blocks k l nz).below)
            ∙ em.data_freed k l nz;
        others = λ j n. ground arith;
      },
    )
