-- ===== src/Fs/Reads.antt =====
-- The loop of `readi` of fs.c.
use dockv6_project.Base.{
  ℕ, zero, suc, ◌+◌, ◌-◌, ◌*◌, ◌/◌, ◌%◌, ◌≤◌, ◌<◌, ◌≡◌, ◌≢◌, inl, inr, arith, sym, ap, ℕ_discrete,
  ◌∙◌, ltb, ltb→lt, Bool-cases, dec_lt,
}
use dockv6_project.CString.{View}
use dockv6_project.Fs.{Dev, Result, panics, returns, bsize}
use dockv6_project.Fs.Alloc.{Full}
use dockv6_project.Fs.Inode.{Dinode, maxfile, bmap, move_in, chunk, readi_loop}
use dockv6_project.Fs.Bmap.{addr_of, FileOk, Mapped, Bmap}
use dockv6_project.Fs.Table.{bmap-Mapped}
use dockv6_project.Fs.Content.{file_byte, Moves, Moves-refl, Moves-trans, Moves-same, Mapped-Moves}
use dockv6_project.Fs.Writes.{chunk-ChunkOk}

read_join :
    (dst b f g : View) (from off tot m n i : ℕ)
    → tot + m ≤ n
    → ((j : ℕ) → j < m → b (from + j) ≡ f (off + j))
    → (tot + m ≤ i → i < n → g (off + m + (i - (tot + m))) ≡ f (off + m + (i - (tot + m))))
    → move_in (move_in dst tot b from m) (tot + m) g (off + m) (n - (tot + m)) i
      ≡ move_in dst tot f off (n - tot) i
read_join dst b f g from off tot m n i l e e' = elim (dec_lt i (tot + m)) [
  | yes lo ↦ ground (arith, e (i - tot))
  | no hi ↦
      let p : off + m + (i - (tot + m)) ≡ off + (i - tot) = omega arith in ground (arith, e', p)
]

-- What `readi` gives: the bytes `f`, in the buffer `dst'`, and a file that has not changed.
pub record ReadBack (d : Dev) (ip : Dinode) (f : ℕ → ℕ) (dst' : View) (ip' : Dinode) (d' : Dev)
    : Type 0 where
  pub buffer : (i : ℕ) → dst' i ≡ f i
  pub moves : Moves d ip (file_byte d ip) ip' d'

-- One of the bytes from `lo` to `hi` lies in a block that the file does not have.
abbrev pub Missing : Dev → Dinode → ℕ → ℕ → Type 0
Missing d ip lo hi = (o : ℕ) × (lo ≤ o) × (o < hi) × (addr_of d ip (o / bsize) ≡ 0)

abbrev pub Reading : Dev → Dinode → (ℕ → ℕ) → ℕ → ℕ → Result (View × Dinode × Dev) → Type 0
Reading d ip f lo hi (panics d') = Full d' × Missing d ip lo hi
Reading d ip f lo hi (returns r) = ReadBack d ip f r.0 r.1 r.2

Reading-after :
    (d : Dev) (ip : Dinode) (ip1 : Dinode) (d1 : Dev) (g h : ℕ → ℕ) (lo lo' hi hi' : ℕ)
    (r : Result (View × Dinode × Dev))
    → Moves d ip (file_byte d ip) ip1 d1
    → Reading d1 ip1 g lo' hi' r
    → ((i : ℕ) → g i ≡ h i)
    → (Missing d1 ip1 lo' hi' → Missing d ip lo hi)
    → Reading d ip h lo hi r
Reading-after d ip ip1 d1 g h lo lo' hi hi' (panics d') one w e f = (w.0, f w.1)
Reading-after d ip ip1 d1 g h lo lo' hi hi' (returns r) one w e f = record {
  buffer = λ i. w.buffer i ∙ e i;
  moves = Moves-same d ip _ _ r.1 r.2 one.bytes (Moves-trans d ip _ ip1 d1 _ r.1 r.2 one w.moves);
}

-- A block that is missing after a round of `bmap` was missing before.
Missing-before :
    (d : Dev) (ip : Dinode) (bn a : ℕ) (ip1 : Dinode) (d1 : Dev) (lo lo' hi hi' : ℕ)
    → Mapped d ip bn a ip1 d1
    → lo ≤ lo'
    → hi' ≤ hi
    → hi ≤ maxfile * bsize
    → Missing d1 ip1 lo' hi'
    → Missing d ip lo hi
Missing-before d ip bn a ip1 d1 lo lo' hi hi' m l h fits (o, ol, oh, z) =
    elim (ℕ_discrete (o / bsize) bn) [
      | yes e ↦ absurd (m.nonzero (sym m.here ∙ ap (addr_of d1 ip1) (sym e) ∙ z))
      | no ne ↦ (
        o,
        omega (arith, l, ol),
        omega (arith, h, oh),
        sym (m.others (o / bsize) (omega (arith, oh, h, fits)) ne) ∙ z,
      )
    ]

-- What one round puts in the buffer.
read_round :
    (d : Dev) (ip : Dinode) (off a : ℕ) (j : ℕ)
    → addr_of d ip (off / bsize) ≡ a
    → a ≢ 0
    → off % bsize + j < bsize
    → d.block a (off % bsize + j) ≡ file_byte d ip (off + j)
unfolding file_byte
read_round d ip off a j e n l =
    let k : (off + j) / bsize ≡ off / bsize = omega arith in
    let b : (off + j) % bsize ≡ off % bsize + j = omega arith in rw (k, b, e) (ground (arith, n))

-- The rest of the loop behind one round.
read_next :
    (fuel : ℕ) (d : Dev) (ip : Dinode) (dst : View) (off tot n m : ℕ)
    (r : Result (ℕ × Dinode × Dev))
    → FileOk d ip
    → off / bsize < maxfile
    → off % bsize + m ≤ bsize
    → tot + m ≤ n
    → tot < n
    → off + (n - tot) ≤ maxfile * bsize
    → Bmap d ip (off / bsize) r
    → ((d' : Dev) (ip' : Dinode) (dst' : View)
        → FileOk d' ip'
        → Reading d' ip'
            (move_in dst' (tot + m) (file_byte d' ip') (off + m) (n - (tot + m)))
            (off + m)
            (off + m + (n - (tot + m)))
            (readi_loop fuel d' ip' dst' (off + m) (tot + m) n))
    → Reading d ip (move_in dst tot (file_byte d ip) off (n - tot)) off (off + (n - tot)) (elim r [
      | panics d' ↦ panics d'
      | returns r ↦
          readi_loop fuel r.2 r.1
            (move_in dst tot (r.2.block r.0) (off % bsize) m)
            (off + m)
            (tot + m)
            n
    ])
read_next fuel d ip dst off tot n m (panics d') ok w fits l some_left e f rest =
    (f.0, (off, omega arith, omega (arith, some_left), f.1))
read_next fuel d ip dst off tot n m (returns r) ok w fits l some_left e mp rest =
    let one = Mapped-Moves d ip (off / bsize) r.0 r.1 r.2 ok w mp in
    let bytes : (j : ℕ) → j < m → r.2.block r.0 (off % bsize + j) ≡ file_byte d ip (off + j) =
      λ j lj.
        read_round r.2 r.1 off r.0 j mp.here mp.nonzero (omega arith)
        ∙ one.bytes (off + j) (omega arith) in
    Reading-after d ip r.1 r.2 _ _ off (off + m) (off + (n - tot)) (off + m + (n - (tot + m))) _ one
      (rest r.2 r.1 _ mp.ok)
      (λ i.
        read_join dst (r.2.block r.0) (file_byte d ip) (file_byte r.2 r.1) (off % bsize) off tot m n
          i l bytes (λ h k. one.bytes _ (omega arith)))
      (Missing-before d ip (off / bsize) r.0 r.1 r.2 off (off + m) (off + (n - tot))
        (off + m + (n - (tot + m))) mp (omega arith) (omega (arith, l)) e)

pub readi_loop-Reading :
    (fuel : ℕ) (d : Dev) (ip : Dinode) (dst : View) (off tot n : ℕ)
    → FileOk d ip
    → tot ≤ n
    → n ≤ tot + fuel
    → off + (n - tot) ≤ maxfile * bsize
    → Reading d ip
        (move_in dst tot (file_byte d ip) off (n - tot))
        off
        (off + (n - tot))
        (readi_loop fuel d ip dst off tot n)
unfolding readi_loop
readi_loop-Reading zero d ip dst off tot n ok lo hi l = record {
  buffer = λ i. ground arith;
  moves = Moves-refl d ip ok;
}
readi_loop-Reading (suc fuel) d ip dst off tot n ok lo hi l = elim (Bool-cases (ltb tot n)) [
  | inr stop ↦ rw stop (record { buffer = λ i. ground arith; moves = Moves-refl d ip ok })
  | inl more ↦
      let m = chunk (n - tot) off in
      let q = chunk-ChunkOk (n - tot) off in
      let go_on = ltb→lt tot n more in
      let some_bytes = q.some_bytes (omega arith) in
      let within : off / bsize < maxfile = omega arith in
      rw more (
        read_next fuel d ip dst off tot n m (bmap d ip (off / bsize)) ok within q.in_block
          (omega (arith, q.inside)) go_on l (bmap-Mapped d ip (off / bsize) ok within)
          (λ d' ip' dst' ok'.
            readi_loop-Reading fuel d' ip' dst' (off + m) (tot + m) n ok' (omega (arith, q.inside))
              (omega (arith, some_bytes)) (omega (arith, q.inside))))
]
