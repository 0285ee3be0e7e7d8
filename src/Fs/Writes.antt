-- ===== src/Fs/Writes.antt =====
-- The loop of `writei` of fs.c.
use dockv6_project.Base.{
  ℕ, zero, suc, ◌+◌, ◌-◌, ◌*◌, ◌/◌, ◌%◌, ◌≤◌, ◌<◌, ◌≡◌, ◌≢◌, inl, inr, refl, arith, sym, ap, ◌∙◌,
  subst, ℕ_discrete, ltb, ltb→lt, Bool-cases,
}
use dockv6_project.CString.{View}
use dockv6_project.Fs.{Dev, Result, panics, returns, bsize, logged_write}
use dockv6_project.Fs.Alloc.{Full}
use dockv6_project.Fs.Inode.{Dinode, ndirect, maxfile, bmap, move_in, chunk, writei_loop}
use dockv6_project.Fs.Owned.{DataBlock-Grows, Owns-Grows, write-Grows}
use dockv6_project.Fs.Bmap.{addr_of, FileOk, Mapped, Bmap, Owns-same}
use dockv6_project.Fs.Table.{bmap-Mapped}
use dockv6_project.Fs.Content.{file_byte, Moves, Moves-refl, Moves-trans, Moves-same, Mapped-Moves}

-- A write to a block that is not the indirect one moves no block.
pub addr_kept :
    (d : Dev) (ip : Dinode) (a : ℕ) (v : View) (k : ℕ)
    → a ≢ ip.addrs ndirect
    → addr_of (logged_write d a v) ip k ≡ addr_of d ip k
unfolding addr_of
addr_kept d ip a v k n = ground arith

-- A write within one block of the file.
block_write :
    (d : Dev) (ip : Dinode) (src : View) (off tot m : ℕ)
    → FileOk d ip
    → off / bsize < maxfile
    → addr_of d ip (off / bsize) ≢ 0
    → off % bsize + m ≤ bsize
    → let a = addr_of d ip (off / bsize) in
      Moves d ip
        (move_in (file_byte d ip) off src tot m)
        ip
        (logged_write d a (move_in (d.block a) (off % bsize) src tot m))
unfolding file_byte
block_write d ip src off tot m ok l n fits =
    let a = addr_of d ip (off / bsize) in
    let d' = logged_write d a (move_in (d.block a) (off % bsize) src tot m) in
    let o = ok.owns.blocks (off / bsize) l n in
    let apart = ok.owns.apart (off / bsize) l n in
    let w = write-Grows d a (move_in (d.block a) (off % bsize) src tot m) o in
    let same : (k : ℕ) → k < maxfile → addr_of d' ip k ≡ addr_of d ip k =
      λ k lk. addr_kept d ip a _ k apart in
    record {
      bytes = λ p lp.
          let there = same (p / bsize) (omega arith) in
          elim (ℕ_discrete (p / bsize) (off / bsize)) [
            | yes e ↦
                let there' : addr_of d' ip (p / bsize) ≡ a = there ∙ ap (addr_of d ip) e in
                let here : addr_of d ip (p / bsize) ≡ a = ap (addr_of d ip) e in
                rw (there', here) (ground (arith, e))
            | no ne ↦
                let far : addr_of d ip (p / bsize) ≢ 0 → a ≢ addr_of d ip (p / bsize) = λ nz q.
                  ne (ok.owns.distinct (p / bsize) (off / bsize) (omega arith) l nz (sym q)) in
                rw there (elim (ℕ_discrete (addr_of d ip (p / bsize)) 0) [
                  | yes z ↦ rw z (ground (arith, ne))
                  | no nz ↦ ground (arith, ne, far nz)
                ])
          ];
      foreign = λ c f. (
        record {
          block = DataBlock-Grows d d' c w f.block;
          no_table = f.no_table;
          no_data = λ k lk q. f.no_data k lk (sym (same k lk) ∙ q);
        },
        ground (arith, f.no_data (off / bsize) l),
      );
      grows = w;
      ok = record {
        fs = w.ok ok.fs;
        owns = Owns-same d' _ _ _ same (Owns-Grows d d' _ _ w ok.owns);
      };
      same_size = refl;
      same_type = refl;
    }

abbrev pub Writing : Dev → Dinode → (ℕ → ℕ) → Result (Dinode × Dev) → Type 0
Writing d ip f (panics d') = Full d'
Writing d ip f (returns r) = Moves d ip f r.0 r.1

Writing-after :
    (d : Dev) (ip : Dinode) (f : ℕ → ℕ) (ip1 : Dinode) (d1 : Dev) (g h : ℕ → ℕ)
    (r : Result (Dinode × Dev))
    → Moves d ip f ip1 d1
    → Writing d1 ip1 g r
    → ((o : ℕ) → o < maxfile * bsize → g o ≡ h o)
    → Writing d ip h r
Writing-after d ip f ip1 d1 g h (panics d') one w e = w
Writing-after d ip f ip1 d1 g h (returns r) one w e =
    Moves-same d ip g h r.0 r.1 e (Moves-trans d ip f ip1 d1 g r.0 r.1 one w)

-- What a round moves: at least one byte, within the block and the rest.
pub record ChunkOk (rest off m : ℕ) : Type 0 where
  pub some_bytes : 0 < rest → 0 < m
  pub inside : m ≤ rest
  pub in_block : off % bsize + m ≤ bsize

pub chunk-ChunkOk : (rest off : ℕ) → ChunkOk rest off (chunk rest off)
unfolding chunk
chunk-ChunkOk rest off = ground arith

-- Two writes in a row are one.
write_join :
    (f g : ℕ → ℕ) (src : View) (off tot m n o : ℕ)
    → tot + m ≤ n
    → g o ≡ move_in f off src tot m o
    → move_in g (off + m) src (tot + m) (n - (tot + m)) o ≡ move_in f off src tot (n - tot) o
write_join f g src off tot m n o l e = ground (arith, e)

-- One round of the loop, behind `bmap`.
written_round :
    (d : Dev) (ip : Dinode) (src : View) (off tot m : ℕ) (a : ℕ) (ip1 : Dinode) (d1 : Dev)
    → FileOk d ip
    → off / bsize < maxfile
    → off % bsize + m ≤ bsize
    → Mapped d ip (off / bsize) a ip1 d1
    → Moves d ip
        (move_in (file_byte d ip) off src tot m)
        ip1
        (logged_write d1 a (move_in (d1.block a) (off % bsize) src tot m))
written_round d ip src off tot m a ip1 d1 ok l fits mp =
    let first = Mapped-Moves d ip (off / bsize) a ip1 d1 ok l mp in
    let there = block_write d1 ip1 src off tot m mp.ok l (λ z. mp.nonzero (sym mp.here ∙ z)) fits in
    let second =
      subst
        (λ b.
          Moves d1 ip1 (move_in (file_byte d1 ip1) off src tot m) ip1
            (logged_write d1 b (move_in (d1.block b) (off % bsize) src tot m)))
        mp.here there in
    Moves-same d ip _ _ ip1 _ (λ o lo. ground (arith, first.bytes o lo))
      (Moves-trans d ip _ ip1 d1 _ ip1 _ first second)

-- The rest of the loop behind one round.
write_next :
    (fuel : ℕ) (d : Dev) (ip : Dinode) (src : View) (off tot n m : ℕ)
    (r : Result (ℕ × Dinode × Dev))
    → FileOk d ip
    → off / bsize < maxfile
    → off % bsize + m ≤ bsize
    → tot + m ≤ n
    → Bmap d ip (off / bsize) r
    → ((d' : Dev) (ip' : Dinode)
        → FileOk d' ip'
        → Writing d' ip'
            (move_in (file_byte d' ip') (off + m) src (tot + m) (n - (tot + m)))
            (writei_loop fuel d' ip' src (off + m) (tot + m) n))
    → Writing d ip (move_in (file_byte d ip) off src tot (n - tot)) (elim r [
      | panics d' ↦ panics d'
      | returns r ↦
          let v = move_in (r.2.block r.0) (off % bsize) src tot m in
          writei_loop fuel (logged_write r.2 r.0 v) r.1 src (off + m) (tot + m) n
    ])
write_next fuel d ip src off tot n m (panics d') ok w fits l f rest = f.0
write_next fuel d ip src off tot n m (returns r) ok w fits l mp rest =
    let one = written_round d ip src off tot m r.0 r.1 r.2 ok w fits mp in
    let d1 = logged_write r.2 r.0 (move_in (r.2.block r.0) (off % bsize) src tot m) in
    Writing-after d ip _ r.1 d1 _ _ _ one (rest d1 r.1 one.ok) (λ o lo'.
      write_join (file_byte d ip) (file_byte d1 r.1) src off tot m n o l (one.bytes o lo'))

pub writei_loop-Writing :
    (fuel : ℕ) (d : Dev) (ip : Dinode) (src : View) (off tot n : ℕ)
    → FileOk d ip
    → tot ≤ n
    → n ≤ tot + fuel
    → off + (n - tot) ≤ maxfile * bsize
    → Writing d ip
        (move_in (file_byte d ip) off src tot (n - tot))
        (writei_loop fuel d ip src off tot n)
unfolding writei_loop
writei_loop-Writing zero d ip src off tot n ok lo hi l =
    Moves-same d ip _ _ ip d (λ o lo'. ground arith) (Moves-refl d ip ok)
writei_loop-Writing (suc fuel) d ip src off tot n ok lo hi l = elim (Bool-cases (ltb tot n)) [
  | inr stop ↦ rw stop (Moves-same d ip _ _ ip d (λ o lo'. ground arith) (Moves-refl d ip ok))
  | inl more ↦
      let m = chunk (n - tot) off in
      let q = chunk-ChunkOk (n - tot) off in
      let go_on = ltb→lt tot n more in
      let some_bytes = q.some_bytes (omega arith) in
      let within : off / bsize < maxfile = omega arith in
      rw more (
        write_next fuel d ip src off tot n m (bmap d ip (off / bsize)) ok within q.in_block
          (omega (arith, q.inside)) (bmap-Mapped d ip (off / bsize) ok within)
          (λ d' ip' ok'.
            writei_loop-Writing fuel d' ip' src (off + m) (tot + m) n ok' (omega (arith, q.inside))
              (omega (arith, some_bytes)) (omega (arith, q.inside))))
]
