-- ===== src/Fs/ReadBack.antt =====
-- Reads behind writes of fs.c, and the errors of both.
use dockv6_project.Base.{
  ℕ, ◌+◌, ◌*◌, ◌%◌, dec_lt, ◌^◌, ◌≤◌, ◌<◌, ◌≡◌, ◌≢◌, ◌⊎◌, inl, inr, refl, arith, subst, ◌∙◌, ◌==◌,
  ltb, Bool, true, false, ◌||◌, Bool-cases,
}
use dockv6_project.CString.{View}
use dockv6_project.Fs.{Dev, Result, panics, returns, bsize}
use dockv6_project.Fs.Alloc.{Full}
use dockv6_project.Fs.Inode.{
  Dinode, maxfile, t_dev, read_count, bad_offset, readi, writei, Io, fails, done,
}
use dockv6_project.Fs.FileIo.{OpenFile, Writes, writei-Written, Reads, readi-ReadOf}

-- The read gave `n` bytes, those of `src`.
abbrev pub GivesBack : View → ℕ → Result (Io (ℕ × View) × Dinode × Dev) → Type 0
GivesBack src n (panics d') = Full d'
GivesBack src n (returns r) =
    (buffer : View) × (r.0 ≡ done (n, buffer)) × ((i : ℕ) → i < n → buffer i ≡ src i)

-- What a read of the same bytes gives after a write.
abbrev pub ReadsBack : (ℕ → Bool) → View → View → ℕ → ℕ → Result (Io ℕ × Dinode × Dev) → Type 0
ReadsBack has src dst off n (panics d') = Full d'
ReadsBack has src dst off n (returns r) = GivesBack src n (readi has r.2 r.1 dst off n)

reads_back :
    (has : ℕ → Bool) (d : Dev) (inum : ℕ) (ip : Dinode) (src dst : View) (off n : ℕ)
    (r : Result (Io ℕ × Dinode × Dev))
    → off ≤ ip.size
    → off + n ≤ maxfile * bsize
    → Writes d inum ip src off n r
    → ReadsBack has src dst off n r
reads_back has d inum ip src dst off n (panics d') l fits w = w
reads_back has d inum ip src dst off n (returns r) l fits w =
    let longer : off ≤ r.1.size = ground (arith, w.size) in
    let count : read_count r.1 off n ≡ n = ground (arith, w.size) in
    go (readi has r.2 r.1 dst off n) (
      subst (λ m. Reads r.2 r.1 dst off m (readi has r.2 r.1 dst off n)) count
        (readi-ReadOf has r.2 inum r.1 dst off n w.still_open longer (omega arith)))
  where
    go : (q : Result (Io (ℕ × View) × Dinode × Dev)) → Reads r.2 r.1 dst off n q → GivesBack src n q
    go (panics d') f = f.0
    go (returns q) b =
        (b.buffer, b.result, λ i li. b.holds i ∙ ground (arith, w.bytes (off + i) (omega arith)))

-- What is written is what a read of the same bytes gives back, for each write within the largest file
-- that starts no later than the end; otherwise the disk was full.
pub readi-writei :
    (has : ℕ → Bool) (d : Dev) (inum : ℕ) (ip : Dinode) (src dst : View) (off n : ℕ)
    → OpenFile d inum ip
    → off ≤ ip.size
    → off + n ≤ maxfile * bsize
    → ReadsBack has src dst off n (writei has d inum ip src off n)
readi-writei has d inum ip src dst off n op l fits =
    reads_back has d inum ip src dst off n (writei has d inum ip src off n) l fits
      (writei-Written has d inum ip src off n op l fits)

-- The offsets that `writei` refuses: behind the end, or with an end behind the largest file, whether
-- or not the sum of the two `uint`s wraps.
abbrev pub Refused : Dinode → ℕ → ℕ → Type 0
Refused ip off n = (ip.size < off) ⊎ (maxfile * bsize < off + n)

Refused-test :
    (ip : Dinode) (off n : ℕ)
    → off < 2 ^ 32
    → n < 2 ^ 32
    → Refused ip off n
    → (bad_offset ip off n || ltb (maxfile * bsize) ((off + n) % 2 ^ 32)) ≡ true
Refused-test ip off n lo ln h = ground (arith, h)

Refused-alone :
    (has : ℕ → Bool) (d : Dev) (inum : ℕ) (ip : Dinode) (src : View) (off n : ℕ)
    → ip.itype ≢ t_dev
    → off < 2 ^ 32
    → n < 2 ^ 32
    → Refused ip off n
    → writei has d inum ip src off n ≡ returns (fails, ip, d)
unfolding writei
Refused-alone has d inum ip src off n nd lo ln h =
    let file : (ip.itype == t_dev) ≡ false = ground (arith, nd) in
    elim (Bool-cases (bad_offset ip off n)) [
      | inl bad ↦ rw (file, bad) refl
      | inr fine ↦
          let big : ltb (maxfile * bsize) ((off + n) % 2 ^ 32) ≡ true =
            ground (arith, Refused-test ip off n lo ln h) in
          rw (file, fine, big) refl
    ]

-- How `writei` ends, on the disk and on the inode.
abbrev pub WriteEnds : Dev → ℕ → Dinode → View → ℕ → ℕ → Result (Io ℕ × Dinode × Dev) → Type 0
WriteEnds d inum ip src off n r =
    (Refused ip off n × (r ≡ returns (fails, ip, d)))
    ⊎ ((off ≤ ip.size) × (off + n ≤ maxfile * bsize) × Writes d inum ip src off n r)

-- `writei` of two `uint`s returns -1 exactly when the write would start behind the end of the file or
-- end behind the largest one, counted without wrapping, and then changes neither the disk nor the
-- inode. It does every other write, or panics for the full disk.
pub writei-WriteEnds :
    (has : ℕ → Bool) (d : Dev) (inum : ℕ) (ip : Dinode) (src : View) (off n : ℕ)
    → OpenFile d inum ip
    → off < 2 ^ 32
    → n < 2 ^ 32
    → WriteEnds d inum ip src off n (writei has d inum ip src off n)
writei-WriteEnds has d inum ip src off n op lo ln = elim (dec_lt ip.size off) [
  | yes behind ↦
      inl (inl behind, Refused-alone has d inum ip src off n op.no_dev lo ln (inl behind))
  | no within ↦ elim (dec_lt (maxfile * bsize) (off + n)) [
    | yes big ↦ inl (inr big, Refused-alone has d inum ip src off n op.no_dev lo ln (inr big))
    | no fits ↦ inr (
      omega (arith, within),
      omega (arith, fits),
      writei-Written has d inum ip src off n op (omega (arith, within)) (omega (arith, fits)),
    )
  ]
]
