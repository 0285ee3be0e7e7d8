-- ===== src/Fs/Dinodes.antt =====
-- The on-disk inodes of fs.c: what `iupdate` writes is what `ilock` reads.
use dockv6_project.Base.{
  ℕ, zero, suc, ◌+◌, ◌*◌, ◌^◌, ◌≤◌, ◌<◌, ◌≡◌, ◌⊎◌, inl, refl, arith, ◌∙◌, ℕ_discrete,
}
use dockv6_project.CString.{View, put_word}
use dockv6_project.Kalloc.{get_word}
use dockv6_project.Kalloc.Words.{word_back}
use dockv6_project.Fs.Inode.{
  Dinode, ndirect, get_half, put_half, read_dinode, put_addrs, write_dinode,
}

-- Each field fits its C type.
pub record Fits (ip : Dinode) : Type 0 where
  pub itype : ip.itype < 2 ^ 16
  pub major : ip.major < 2 ^ 16
  pub minor : ip.minor < 2 ^ 16
  pub nlink : ip.nlink < 2 ^ 16
  pub size : ip.size < 2 ^ 32
  pub addrs : (i : ℕ) → i < ndirect + 1 → ip.addrs i < 2 ^ 32

-- The same inode, as far as the disk holds it.
pub record SameNode (ip ip' : Dinode) : Type 0 where
  pub itype : ip'.itype ≡ ip.itype
  pub major : ip'.major ≡ ip.major
  pub minor : ip'.minor ≡ ip.minor
  pub nlink : ip'.nlink ≡ ip.nlink
  pub size : ip'.size ≡ ip.size
  pub addrs : (i : ℕ) → i < ndirect + 1 → ip'.addrs i ≡ ip.addrs i

put_addrs-out :
    (n i : ℕ) (v : View) (a : ℕ) (f : ℕ → ℕ) (b : ℕ)
    → (b < a + 4 * i) ⊎ (a + 4 * (i + n) ≤ b)
    → put_addrs n i v a f b ≡ v b
unfolding put_addrs
put_addrs-out zero i v a f b h = refl
put_addrs-out (suc n) i v a f b h =
    put_addrs-out n (suc i) (put_word v (a + 4 * i) (f i)) a f b (omega arith) ∙ ground arith

word-put_addrs :
    (n i : ℕ) (v : View) (a : ℕ) (f : ℕ → ℕ) (b : ℕ)
    → b + 4 ≤ a + 4 * i
    → get_word (put_addrs n i v a f) b ≡ get_word v b
word-put_addrs n i v a f b h =
    let b0 = put_addrs-out n i v a f b (omega arith) in
    let b1 = put_addrs-out n i v a f (b + 1) (omega arith) in
    let b2 = put_addrs-out n i v a f (b + 2) (omega arith) in
    let b3 = put_addrs-out n i v a f (b + 3) (omega arith) in rw (b0, b1, b2, b3) refl

addr-put_addrs :
    (n i : ℕ) (v : View) (a : ℕ) (f : ℕ → ℕ) (j : ℕ)
    → ((k : ℕ) → k < i + n → f k < 2 ^ 32)
    → i ≤ j
    → j < i + n
    → get_word (put_addrs n i v a f) (a + 4 * j) ≡ f j
unfolding put_addrs
addr-put_addrs zero i v a f j small lo hi = absurd (omega arith)
addr-put_addrs (suc n) i v a f j small lo hi = elim (ℕ_discrete i j) [
  | yes e ↦ rw (← e) (
      word-put_addrs n (suc i) (put_word v (a + 4 * i) (f i)) a f (a + 4 * i) (omega arith)
      ∙ word_back v (a + 4 * i) (f i) (small i (omega arith)))
  | no ne ↦
      addr-put_addrs n (suc i) (put_word v (a + 4 * i) (f i)) a f j (λ k l. small k (omega arith))
        (omega arith) (omega arith)
]

abbrev halves : View → ℕ → Dinode → View
halves v a ip =
    put_half (put_half (put_half (put_half v a ip.itype) (a + 2) ip.major) (a + 4) ip.minor) (a + 6)
      ip.nlink

record HalvesBack (v : View) (a : ℕ) (ip : Dinode) : Type 0 where
  itype : get_half v a ≡ ip.itype
  major : get_half v (a + 2) ≡ ip.major
  minor : get_half v (a + 4) ≡ ip.minor
  nlink : get_half v (a + 6) ≡ ip.nlink

halves_back : (v : View) (a : ℕ) (ip : Dinode) → Fits ip → HalvesBack (halves v a ip) a ip
halves_back v a ip f = record {
  itype = ground (arith, f.itype);
  major = ground (arith, f.major);
  minor = ground (arith, f.minor);
  nlink = ground (arith, f.nlink);
}

half_kept : (v : View) (b c w : ℕ) → b + 2 ≤ c → get_half (put_word v c w) b ≡ get_half v b
half_kept v b c w h = ground arith

-- An inode that is written and read back is the same, where its fields fit their types.
pub read_dinode-write_dinode :
    (v : View) (a : ℕ) (ip : Dinode) → Fits ip → SameNode ip (read_dinode (write_dinode v a ip) a)
unfolding write_dinode
read_dinode-write_dinode v a ip f =
    let h = halves_back v a ip f in
    let w = put_word (halves v a ip) (a + 8) ip.size in
    let front : (b : ℕ) → b < a + 12 → put_addrs (ndirect + 1) 0 w (a + 12) ip.addrs b ≡ w b =
      λ b l. put_addrs-out (ndirect + 1) 0 w (a + 12) ip.addrs b (inl (omega arith)) in
    let half : (b : ℕ)
        → b + 2 ≤ a + 8
        → get_half (put_addrs (ndirect + 1) 0 w (a + 12) ip.addrs) b ≡ get_half (halves v a ip) b =
      λ b l.
        let b0 = front b (omega arith) in
        let b1 = front (b + 1) (omega arith) in
        rw (b0, b1) (half_kept (halves v a ip) b (a + 8) ip.size l) in
    record {
      itype = half a (omega arith) ∙ h.itype;
      major = half (a + 2) (omega arith) ∙ h.major;
      minor = half (a + 4) (omega arith) ∙ h.minor;
      nlink = half (a + 6) (omega arith) ∙ h.nlink;
      size =
          word-put_addrs (ndirect + 1) 0 w (a + 12) ip.addrs (a + 8) (omega arith)
          ∙ word_back (halves v a ip) (a + 8) ip.size f.size;
      addrs = λ i l.
          addr-put_addrs (ndirect + 1) 0 w (a + 12) ip.addrs i (λ k lk. f.addrs k (omega arith))
            (omega arith) (omega arith);
    }

pub write_dinode-out :
    (v : View) (a : ℕ) (ip : Dinode) (b : ℕ) → (b < a) ⊎ (a + 64 ≤ b) → write_dinode v a ip b ≡ v b
unfolding write_dinode
write_dinode-out v a ip b h =
    put_addrs-out (ndirect + 1) 0 (put_word (halves v a ip) (a + 8) ip.size) (a + 12) ip.addrs b
      (omega arith)
    ∙ ground arith

halves_free : (v : View) (a : ℕ) (ip : Dinode) → ip.itype ≡ 0 → get_half (halves v a ip) a ≡ 0
halves_free v a ip z = ground (arith, z)

-- An inode without a type is free on the disk, whatever its other fields.
pub free-write_dinode :
    (v : View) (a : ℕ) (ip : Dinode) → ip.itype ≡ 0 → get_half (write_dinode v a ip) a ≡ 0
unfolding write_dinode
free-write_dinode v a ip z =
    let w = put_word (halves v a ip) (a + 8) ip.size in
    let b0 = put_addrs-out (ndirect + 1) 0 w (a + 12) ip.addrs a (inl (omega arith)) in
    let b1 = put_addrs-out (ndirect + 1) 0 w (a + 12) ip.addrs (a + 1) (inl (omega arith)) in
    rw (b0, b1) (half_kept (halves v a ip) a (a + 8) ip.size (omega arith) ∙ halves_free v a ip z)
