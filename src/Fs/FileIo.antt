-- ===== src/Fs/FileIo.antt =====
-- `readi` and `writei` of fs.c as reads and writes of an array of bytes.
use dockv6_project.Base.{
  ◌%◌, ℕ, ◌+◌, ◌-◌, ◌*◌, ◌/◌, ◌^◌, ◌≤◌, ◌<◌, ◌≡◌, ◌≢◌, inl, inr, refl, arith, sym, ◌∙◌, subst, ◌==◌,
  ltb, ◌&&◌, if◌then◌else◌, Bool, Bool-cases, false,
}
use dockv6_project.CString.{View}
use dockv6_project.Fs.{Dev, Result, panics, returns, bsize, logged_write}
use dockv6_project.Fs.Alloc.{Full}
use dockv6_project.Fs.Inode.{
  Dinode, maxfile, t_dev, iblock, inode_at, write_dinode, iupdate, move_in, read_count, bad_offset,
  readi_loop, writei_loop, readi, writei, grow, Io, done,
}
use dockv6_project.Fs.Owned.{DataBlock-Grows, Owns-Grows, write-Grows}
use dockv6_project.Fs.Bmap.{addr_of, FileOk, Owns-same}
use dockv6_project.Fs.Content.{file_byte, Foreign, Moves, Moves-same}
use dockv6_project.Fs.Writes.{Writing, writei_loop-Writing, addr_kept}
use dockv6_project.Fs.Reads.{Missing, Reading, readi_loop-Reading}

-- An open file on a disk: its inode `inum` lies in a block of its own.
pub record OpenFile (d : Dev) (inum : ℕ) (ip : Dinode) : Type 0 where
  pub ok : FileOk d ip
  pub node : Foreign d ip (iblock d.sb inum)
  pub no_dev : ip.itype ≢ t_dev
  pub bound : ip.size ≤ maxfile * bsize

-- What a write of `n` bytes at `off` does.
pub record Written (d : Dev) (inum : ℕ) (ip : Dinode) (src : View) (off n : ℕ) (io : Io ℕ)
    (ip' : Dinode) (d' : Dev) : Type 0 where
  pub count : io ≡ done n
  pub size : ip'.size ≡ (if ltb ip.size (off + n) then off + n else ip.size)
  pub bytes :
      (o : ℕ) → o < maxfile * bsize → file_byte d' ip' o ≡ move_in (file_byte d ip) off src 0 n o
  pub others : (c : ℕ) → Foreign d ip c → c ≢ iblock d.sb inum → d'.block c ≡ d.block c
  pub still_open : OpenFile d' inum ip'

abbrev pub Writes : Dev → ℕ → Dinode → View → ℕ → ℕ → Result (Io ℕ × Dinode × Dev) → Type 0
Writes d inum ip src off n (panics d') = Full d'
Writes d inum ip src off n (returns r) = Written d inum ip src off n r.0 r.1 r.2

-- A write to a block that is not the file's.
record Beside (d : Dev) (ip : Dinode) (d' : Dev) : Type 0 where
  ok : FileOk d' ip
  bytes : (o : ℕ) → o < maxfile * bsize → file_byte d' ip o ≡ file_byte d ip o
  foreign : (c : ℕ) → Foreign d ip c → Foreign d' ip c

beside :
    (d : Dev) (ip : Dinode) (c : ℕ) (v : View)
    → FileOk d ip
    → Foreign d ip c
    → Beside d ip (logged_write d c v)
unfolding file_byte
beside d ip c v ok f =
    let d' = logged_write d c v in
    let w = write-Grows d c v f.block in
    let same : (k : ℕ) → k < maxfile → addr_of d' ip k ≡ addr_of d ip k =
      λ k lk. addr_kept d ip c v k f.no_table in
    record {
      ok = record {
        fs = w.ok ok.fs;
        owns = Owns-same d' _ _ _ same (Owns-Grows d d' _ _ w ok.owns);
      };
      bytes = λ o l.
          let there = same (o / bsize) (omega arith) in
          rw there (ground (arith, f.no_data (o / bsize) (omega arith)));
      foreign = λ c' f'. record {
        block = DataBlock-Grows d d' c' w f'.block;
        no_table = f'.no_table;
        no_data = λ k lk q. f'.no_data k lk (sym (same k lk) ∙ q);
      };
    }

-- The size is no part of where the blocks lie.
resized-FileOk : (d : Dev) (ip : Dinode) (s : ℕ) → FileOk d ip → FileOk d (record ip { size = s })
unfolding addr_of
resized-FileOk d ip s ok = record { fs = ok.fs; owns = ok.owns }

resized-Foreign :
    (d : Dev) (ip : Dinode) (s c : ℕ) → Foreign d ip c → Foreign d (record ip { size = s }) c
unfolding addr_of
resized-Foreign d ip s c f = record { block = f.block; no_table = f.no_table; no_data = f.no_data }

resized-byte :
    (d : Dev) (ip : Dinode) (s o : ℕ) → file_byte d (record ip { size = s }) o ≡ file_byte d ip o
unfolding addr_of file_byte
resized-byte d ip s o = refl

-- `grow` writes the inode's block only.
grow-Written :
    (d : Dev) (inum : ℕ) (ip : Dinode) (src : View) (off n : ℕ) (ip1 : Dinode) (d1 : Dev)
    → OpenFile d inum ip
    → off ≤ ip.size
    → off + n ≤ maxfile * bsize
    → Moves d ip (move_in (file_byte d ip) off src 0 n) ip1 d1
    → let g = grow d1 inum ip1 (off + n) n in Written d inum ip src off n (done n) g.0 g.1
unfolding grow iupdate
grow-Written d inum ip src off n ip1 d1 op l fits mv =
    let node = (mv.foreign _ op.node).0 in
    let place : iblock d1.sb inum ≡ iblock d.sb inum = rw mv.grows.same_sb refl in
    let here : Foreign d1 ip1 (iblock d1.sb inum) =
      subst (λ c. Foreign d1 ip1 c) (sym place) node in
    elim (Bool-cases (ltb 0 n && ltb ip1.size (off + n))) [
      | inr stays ↦ rw stays (record {
        count = refl;
        size = ground (arith, mv.same_size);
        bytes = mv.bytes;
        others = λ c f n. (mv.foreign c f).1;
        still_open = record {
          ok = mv.ok;
          node = here;
          no_dev = rw mv.same_type op.no_dev;
          bound = rw mv.same_size op.bound;
        };
      })
      | inl grows ↦ rw grows (
          let big : Dinode = record ip1 { size = off + n } in
          let v = write_dinode (d1.block (iblock d1.sb inum)) (inode_at inum) big in
          let b = beside d1 ip1 (iblock d1.sb inum) v mv.ok here in
          let d2 = logged_write d1 (iblock d1.sb inum) v in
          record {
            count = refl;
            size = ground (arith, mv.same_size);
            bytes = λ o l. resized-byte d2 ip1 (off + n) o ∙ b.bytes o l ∙ mv.bytes o l;
            others = λ c f nc. ground (arith, (mv.foreign c f).1, place);
            still_open = record {
              ok = resized-FileOk d2 ip1 (off + n) b.ok;
              node = resized-Foreign d2 ip1 (off + n) _ (b.foreign _ here);
              no_dev = rw mv.same_type op.no_dev;
              bound = fits;
            };
          })
    ]

-- A write of `n` bytes at `off`, within the largest file and not behind the end of this one, returns
-- `n`. The file is then the array of bytes with those `n` bytes put in, and as long as it needs to
-- be; no block of another file changes but that of the inode itself. Otherwise the disk was full.
pub writei-Written :
    (has : ℕ → Bool) (d : Dev) (inum : ℕ) (ip : Dinode) (src : View) (off n : ℕ)
    → OpenFile d inum ip
    → off ≤ ip.size
    → off + n ≤ maxfile * bsize
    → Writes d inum ip src off n (writei has d inum ip src off n)
unfolding writei
writei-Written has d inum ip src off n op l fits =
    let file : (ip.itype == t_dev) ≡ false = ground (arith, op.no_dev) in
    let inside : bad_offset ip off n ≡ false = ground arith in
    let small : ltb (maxfile * bsize) ((off + n) % 2 ^ 32) ≡ false = ground arith in
    rw (file, inside, small)
      (go (writei_loop n d ip src off 0 n)
        (writei_loop-Writing n d ip src off 0 n op.ok (omega arith) (omega arith) (omega arith)))
  where
    go :
        (r : Result (Dinode × Dev))
        → Writing d ip (move_in (file_byte d ip) off src 0 (n - 0)) r
        → Writes d inum ip src off n (elim r [
          | panics d' ↦ panics d'
          | returns r ↦ let g = grow r.1 inum r.0 (off + n) n in returns (done n, g.0, g.1)
        ])
    go (panics d') f = f
    go (returns r) m =
        grow-Written d inum ip src off n r.0 r.1 op l fits
          (Moves-same d ip _ _ r.0 r.1 (λ o lo. ground arith) m)

-- What a read of up to `n` bytes at `off` does: the count, the buffer, and the file as it was.
pub record ReadOf (d : Dev) (ip : Dinode) (dst : View) (off m : ℕ) (io : Io (ℕ × View))
    (ip' : Dinode) (d' : Dev) : Type 0 where
  pub buffer : View
  pub result : io ≡ done (m, buffer)
  pub holds : (i : ℕ) → buffer i ≡ move_in dst 0 (file_byte d ip) off m i
  pub moves : Moves d ip (file_byte d ip) ip' d'

abbrev pub Reads : Dev → Dinode → View → ℕ → ℕ → Result (Io (ℕ × View) × Dinode × Dev) → Type 0
Reads d ip dst off m (panics d') = Full d' × Missing d ip off (off + m)
Reads d ip dst off m (returns r) = ReadOf d ip dst off m r.0 r.1 r.2

pub readi-ReadOf :
    (has : ℕ → Bool) (d : Dev) (inum : ℕ) (ip : Dinode) (dst : View) (off n : ℕ)
    → OpenFile d inum ip
    → off ≤ ip.size
    → off + n < 2 ^ 32
    → Reads d ip dst off (read_count ip off n) (readi has d ip dst off n)
unfolding readi
readi-ReadOf has d inum ip dst off n op l fits =
    let file : (ip.itype == t_dev) ≡ false = ground (arith, op.no_dev) in
    let inside : bad_offset ip off n ≡ false = ground arith in
    let m = read_count ip off n in
    let small : off + m ≤ maxfile * bsize = ground (arith, op.bound) in
    rw (file, inside)
      (go m (readi_loop m d ip dst off 0 m)
        (readi_loop-Reading m d ip dst off 0 m op.ok (omega arith) (omega arith) (omega arith)))
  where
    go :
        (m : ℕ) (r : Result (View × Dinode × Dev))
        → Reading d ip (move_in dst 0 (file_byte d ip) off (m - 0)) off (off + (m - 0)) r
        → Reads d ip dst off m
            (elim r [ panics d' ↦ panics d' | returns r ↦ returns (done (m, r.0), r.1, r.2) ])
    go m (panics d') f = let (o, lo, hi, z) = f.1 in (f.0, (o, lo, omega (arith, hi), z))
    go m (returns r) b = record {
      buffer = r.0;
      result = refl;
      holds = λ i. b.buffer i ∙ ground arith;
      moves = b.moves;
    }
