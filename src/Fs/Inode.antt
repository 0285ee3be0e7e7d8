-- ===== src/Fs/Inode.antt =====
-- fs.c: inodes and their content, without the cache: `bmap`, `itrunc`, `iupdate`, `readi`, `writei`.
-- A `short` is its 16-bit pattern. An inode's own fields are the record `Dinode`, on disk and in
-- memory.
use dockv6_project.Base.{
  ℕ, zero, suc, ◌+◌, ◌-◌, ◌*◌, ◌/◌, ◌%◌, ◌^◌, ◌==◌, if◌then◌else◌, ltb, leb, ◌&&◌, ◌||◌, not, Bool,
  update,
}
use dockv6_project.CString.{View, put_word}
use dockv6_project.Kalloc.{get_word}
use dockv6_project.Fs.{Superblock, Dev, Result, panics, returns, bsize, logged_write, balloc, bfree}

abbrev pub ndirect : ℕ
ndirect = 12

abbrev pub nindirect : ℕ
nindirect = bsize / 4

abbrev pub maxfile : ℕ
maxfile = ndirect + nindirect

abbrev pub ipb : ℕ
ipb = bsize / 64

abbrev pub t_dir : ℕ
t_dir = 1

abbrev pub t_dev : ℕ
t_dev = 3

abbrev pub ndev : ℕ
ndev = 10

pub record Dinode : Type 0 where
  pub itype : ℕ
  pub major : ℕ
  pub minor : ℕ
  pub nlink : ℕ
  pub size : ℕ
  pub addrs : ℕ → ℕ

-- `IBLOCK(i, sb)`, and the place of inode `i` in that block.
abbrev pub iblock : Superblock → ℕ → ℕ
iblock sb i = i / ipb + sb.inodestart

abbrev pub inode_at : ℕ → ℕ
inode_at i = i % ipb * 64

abbrev pub get_half : View → ℕ → ℕ
get_half v a = v a + 256 * v (a + 1)

abbrev pub put_half : View → ℕ → ℕ → View
put_half v a h = update (update v a (h % 256)) (a + 1) (h / 256 % 256)

-- The fields of the inode at `a`, read one by one.
abbrev pub read_dinode : View → ℕ → Dinode
read_dinode v a = record {
  itype = get_half v a;
  major = get_half v (a + 2);
  minor = get_half v (a + 4);
  nlink = get_half v (a + 6);
  size = get_word v (a + 8);
  addrs = λ i. get_word v (a + 12 + 4 * i);
}

-- `memmove(dip->addrs, ip->addrs, sizeof(ip->addrs))`, for `n` entries from `i` on.
unfoldable pub put_addrs : ℕ → ℕ → View → ℕ → (ℕ → ℕ) → View
put_addrs zero i v a addrs = v
put_addrs (suc n) i v a addrs = put_addrs n (suc i) (put_word v (a + 4 * i) (addrs i)) a addrs

unfoldable pub write_dinode : View → ℕ → Dinode → View
unfolding put_addrs
write_dinode v a ip =
    let v1 = put_half (put_half v a ip.itype) (a + 2) ip.major in
    let v2 = put_half (put_half v1 (a + 4) ip.minor) (a + 6) ip.nlink in
    put_addrs (ndirect + 1) 0 (put_word v2 (a + 8) ip.size) (a + 12) ip.addrs

unfoldable pub iupdate : Dev → ℕ → Dinode → Dev
iupdate d inum ip =
    let b = iblock d.sb inum in logged_write d b (write_dinode (d.block b) (inode_at inum) ip)

-- `a[k]` of the block that `v` shows.
abbrev pub entry : View → ℕ → ℕ
entry v k = get_word v (4 * k)

-- `if ((addr = ip->addrs[i]) == 0) ip->addrs[i] = addr = balloc(ip->dev);`
unfoldable pub own_slot : Dev → Dinode → ℕ → Result (ℕ × Dinode × Dev)
own_slot d ip i =
    if ip.addrs i == 0
    then elim (balloc d) [
      | panics d' ↦ panics d'
      | returns r ↦ returns (r.0, record ip { addrs = update ip.addrs i r.0 }, r.1)
    ]
    else returns (ip.addrs i, ip, d)

-- The part of `bmap` behind the read of the indirect block `addr`.
unfoldable pub indirect_slot : Dev → Dinode → ℕ → ℕ → Result (ℕ × Dinode × Dev)
indirect_slot d ip addr k =
    if entry (d.block addr) k == 0
    then elim (balloc d) [
      | panics d' ↦ panics d'
      | returns r ↦ returns (r.0, ip, logged_write r.1 addr (put_word (r.1.block addr) (4 * k) r.0))
    ]
    else returns (entry (d.block addr) k, ip, d)

unfoldable pub bmap : Dev → Dinode → ℕ → Result (ℕ × Dinode × Dev)
unfolding own_slot indirect_slot
bmap d ip bn =
    if ltb bn ndirect
    then own_slot d ip bn
    else if ltb (bn - ndirect) nindirect
    then elim (own_slot d ip ndirect) [
      | panics d' ↦ panics d'
      | returns r ↦ indirect_slot r.2 r.1 r.0 (bn - ndirect)
    ]
    else panics d

-- The two loops of `itrunc`, with `n` rounds left.
unfoldable pub free_direct : ℕ → ℕ → Dev → Dinode → Result (Dinode × Dev)
free_direct zero i d ip = returns (ip, d)
free_direct (suc n) i d ip =
    if ip.addrs i == 0 then free_direct n (suc i) d ip else elim (bfree d (ip.addrs i)) [
      | panics d' ↦ panics d'
      | returns d' ↦ free_direct n (suc i) d' (record ip { addrs = update ip.addrs i 0 })
    ]

-- The buffer of the indirect block, whose entries `v` shows, is held through the loop.
unfoldable pub free_entries : ℕ → ℕ → Dev → View → Result Dev
free_entries zero j d v = returns d
free_entries (suc n) j d v =
    if entry v j == 0 then free_entries n (suc j) d v else elim (bfree d (entry v j)) [
      | panics d' ↦ panics d'
      | returns d' ↦ free_entries n (suc j) d' v
    ]

-- What `itrunc` does with the indirect block, which has `n` entries.
unfoldable pub free_indirect : ℕ → Dev → Dinode → Result (Dinode × Dev)
unfolding free_entries
free_indirect n d ip =
    if ip.addrs ndirect == 0
    then returns (ip, d)
    else elim (free_entries n 0 d (d.block (ip.addrs ndirect))) [
      | panics d' ↦ panics d'
      | returns d1 ↦ elim (bfree d1 (ip.addrs ndirect)) [
        | panics d' ↦ panics d'
        | returns d2 ↦ returns (record ip { addrs = update ip.addrs ndirect 0 }, d2)
      ]
    ]

-- `itrunc` from its second part on, and its end.
unfoldable pub behind_direct : Result (Dinode × Dev) → Result (Dinode × Dev)
behind_direct (panics d) = panics d
behind_direct (returns r) = free_indirect nindirect r.1 r.0

unfoldable pub emptied : ℕ → Result (Dinode × Dev) → Result (Dinode × Dev)
emptied inum (panics d) = panics d
emptied inum (returns r) = let ip = record r.0 { size = 0 } in returns (ip, iupdate r.1 inum ip)

unfoldable pub itrunc : Dev → ℕ → Dinode → Result (Dinode × Dev)
itrunc d inum ip = emptied inum (behind_direct (free_direct ndirect 0 d ip))

-- What a read or a write comes to: -1, what the device's routine returns, or its own result.
pub data Io {ℓ} (A : Type ℓ) : Type ℓ where
  fails : Io A
  device : (major n : ℕ) → Io A
  done : A → Io A

-- The buffer `dst` after `memmove(dst + at, src + from, m)`, from a buffer that lies elsewhere.
abbrev pub move_in : View → ℕ → View → ℕ → ℕ → View
move_in dst to src from m i = if leb to i && ltb i (to + m) then src (from + (i - to)) else dst i

-- `min(n - tot, BSIZE - off % BSIZE)`
unfoldable pub chunk : ℕ → ℕ → ℕ
chunk rest off = if ltb rest (bsize - off % bsize) then rest else bsize - off % bsize

-- `for (tot = 0; tot < n; tot += m, off += m, dst += m)`: `n` rounds are enough.
unfoldable pub readi_loop : ℕ → Dev → Dinode → View → ℕ → ℕ → ℕ → Result (View × Dinode × Dev)
unfolding bmap
readi_loop zero d ip dst off tot n = returns (dst, ip, d)
readi_loop (suc fuel) d ip dst off tot n =
    if ltb tot n
    then elim (bmap d ip (off / bsize)) [
      | panics d' ↦ panics d'
      | returns r ↦
          let m = chunk (n - tot) off in
          readi_loop fuel r.2 r.1 (move_in dst tot (r.2.block r.0) (off % bsize) m) (off + m)
            (tot + m) n
    ]
    else returns (dst, ip, d)

unfoldable pub writei_loop : ℕ → Dev → Dinode → View → ℕ → ℕ → ℕ → Result (Dinode × Dev)
unfolding bmap
writei_loop zero d ip src off tot n = returns (ip, d)
writei_loop (suc fuel) d ip src off tot n =
    if ltb tot n
    then elim (bmap d ip (off / bsize)) [
      | panics d' ↦ panics d'
      | returns r ↦
          let m = chunk (n - tot) off in
          let v = move_in (r.2.block r.0) (off % bsize) src tot m in
          writei_loop fuel (logged_write r.2 r.0 v) r.1 src (off + m) (tot + m) n
    ]
    else returns (ip, d)

-- `ip->major < 0 || ip->major >= NDEV || !devsw[ip->major].read`, and so for `write`.
abbrev pub no_device : (ℕ → Bool) → Dinode → Bool
no_device has ip = leb (2 ^ 15) ip.major || leb ndev ip.major || not (has ip.major)

-- `off > ip->size || off + n < off`
abbrev pub bad_offset : Dinode → ℕ → ℕ → Bool
bad_offset ip off n = ltb ip.size off || ltb ((off + n) % 2 ^ 32) off

-- How much `readi` reads: up to the end of the file.
abbrev pub read_count : Dinode → ℕ → ℕ → ℕ
read_count ip off n = if ltb ip.size (off + n) then ip.size - off else n

-- `has` tells of which devices `devsw` has a read routine. The result is the count and the buffer.
unfoldable pub readi :
    (ℕ → Bool) → Dev → Dinode → View → ℕ → ℕ → Result (Io (ℕ × View) × Dinode × Dev)
unfolding readi_loop
readi has d ip dst off n =
    if ip.itype == t_dev
    then returns (if no_device has ip then fails else device ip.major n, ip, d)
    else if bad_offset ip off n
    then returns (fails, ip, d)
    else (let m = read_count ip off n in
        elim (readi_loop m d ip dst off 0 m) [
          | panics d' ↦ panics d'
          | returns r ↦ returns (done (m, r.0), r.1, r.2)
        ])

-- What `writei` does behind its loop, which has moved `off` to `last`.
unfoldable pub grow : Dev → ℕ → Dinode → ℕ → ℕ → Dinode × Dev
unfolding iupdate
grow d inum ip last n =
    if ltb 0 n && ltb ip.size last
    then (record ip { size = last }, iupdate d inum (record ip { size = last }))
    else (ip, d)

unfoldable pub writei : (ℕ → Bool) → Dev → ℕ → Dinode → View → ℕ → ℕ → Result (Io ℕ × Dinode × Dev)
unfolding writei_loop grow
writei has d inum ip src off n =
    if ip.itype == t_dev
    then returns (if no_device has ip then fails else device ip.major n, ip, d)
    else if bad_offset ip off n
    then returns (fails, ip, d)
    else if ltb (maxfile * bsize) ((off + n) % 2 ^ 32)
    then returns (fails, ip, d)
    else elim (writei_loop n d ip src off 0 n) [
      | panics d' ↦ panics d'
      | returns r ↦ let g = grow r.1 inum r.0 (off + n) n in returns (done n, g.0, g.1)
    ]
