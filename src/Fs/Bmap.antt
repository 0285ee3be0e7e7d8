-- ===== src/Fs/Bmap.antt =====
-- `bmap` of fs.c: the blocks of a file, and what allocating one more does.
use dockv6_project.Base.{
  ℕ, ◌-◌, ◌<◌, ◌≡◌, ◌≢◌, inl, inr, refl, arith, sym, ◌∙◌, subst, ℕ_discrete, update, ◌==◌, ltb,
  if◌then◌else◌, Bool-cases,
}
use dockv6_project.Fs.{Dev, Result, panics, returns, bsize, balloc}
use dockv6_project.Fs.Alloc.{Full, Balloc, balloc-Allocated, FsOk, Allocated, Allocated-FsOk}
use dockv6_project.Fs.Inode.{Dinode, ndirect, maxfile, entry, own_slot}
use dockv6_project.Fs.Owned.{
  DataBlock, Owns, Grows, Grows-refl, Allocated-Grows, used_ne, data_kept, fresh_nonzero, take_data,
}

-- The address of block `k` of a file, 0 where it has none.
unfoldable pub addr_of : Dev → Dinode → ℕ → ℕ
addr_of d ip k =
    if ltb k ndirect
    then ip.addrs k
    else if ip.addrs ndirect == 0
    then 0
    else entry (d.block (ip.addrs ndirect)) (k - ndirect)

-- What holds of an inode and its disk while the file system works.
pub record FileOk (d : Dev) (ip : Dinode) : Type 0 where
  pub fs : FsOk d
  pub owns : Owns d (addr_of d ip) (ip.addrs ndirect)

-- What `bmap` promises: block `bn` has an address, a new block is blank, and nothing else of the
-- file or of another file's blocks has changed.
pub record Mapped (d : Dev) (ip : Dinode) (bn : ℕ) (a : ℕ) (ip' : Dinode) (d' : Dev) : Type 0 where
  pub nonzero : a ≢ 0
  pub here : addr_of d' ip' bn ≡ a
  pub old : addr_of d ip bn ≢ 0 → a ≡ addr_of d ip bn
  pub blank : addr_of d ip bn ≡ 0 → (i : ℕ) → i < bsize → d'.block a i ≡ 0
  pub others : (k : ℕ) → k < maxfile → k ≢ bn → addr_of d' ip' k ≡ addr_of d ip k
  pub kept : (c : ℕ) → DataBlock d c → c ≢ ip.addrs ndirect → d'.block c ≡ d.block c
  pub fresh : addr_of d ip bn ≡ 0 → (c : ℕ) → DataBlock d c → c ≢ a
  pub table : (c : ℕ) → DataBlock d c → c ≢ ip.addrs ndirect → c ≢ ip'.addrs ndirect
  pub grows : Grows d d'
  pub ok : FileOk d' ip'
  pub same_size : ip'.size ≡ ip.size
  pub same_type : ip'.itype ≡ ip.itype

abbrev pub Bmap : Dev → Dinode → ℕ → Result (ℕ × Dinode × Dev) → Type 0
Bmap d ip bn (panics d') = Full d' × (addr_of d ip bn ≡ 0)
Bmap d ip bn (returns r) = Mapped d ip bn r.0 r.1 r.2

pub Owns-same :
    (d : Dev) (f g : ℕ → ℕ) (t : ℕ) → ((k : ℕ) → k < maxfile → g k ≡ f k) → Owns d f t → Owns d g t
Owns-same d f g t e o = record {
  blocks = λ k l. rw (e k l) (o.blocks k l);
  table = o.table;
  apart = λ k l. rw (e k l) (o.apart k l);
  distinct = λ j k l m. rw (e j l, e k m) (o.distinct j k l m);
}

-- A block that the file has already.
pub Mapped-old :
    (d : Dev) (ip : Dinode) (bn : ℕ)
    → FileOk d ip
    → addr_of d ip bn ≢ 0
    → Mapped d ip bn (addr_of d ip bn) ip d
Mapped-old d ip bn ok n = record {
  nonzero = n;
  here = refl;
  old = λ _. refl;
  blank = λ z. absurd (n z);
  others = λ k l m. refl;
  kept = λ c o m. refl;
  fresh = λ z. absurd (n z);
  table = λ c o m. m;
  grows = Grows-refl d;
  ok = ok;
  same_size = refl;
  same_type = refl;
}

-- A new block among the direct ones.
direct_new :
    (d : Dev) (ip : Dinode) (bn b : ℕ) (d' : Dev)
    → FileOk d ip
    → bn < ndirect
    → addr_of d ip bn ≡ 0
    → Allocated d b d'
    → Mapped d ip bn b (record ip { addrs = update ip.addrs bn b }) d'
unfolding addr_of
direct_new d ip bn b d' ok l z a =
    let ip' : Dinode = record ip { addrs = update ip.addrs bn b } in
    let table : ip.addrs ndirect ≢ 0 → d'.block (ip.addrs ndirect) ≡ d.block (ip.addrs ndirect) =
      λ n. data_kept d b d' _ a (ok.owns.table n) in
    let shape : (k : ℕ) → k < maxfile → addr_of d' ip' k ≡ update (addr_of d ip) bn b k = λ k m.
      elim (ℕ_discrete (ip.addrs ndirect) 0) [
        | yes e ↦ ground (arith, e)
        | no ne ↦ ground (arith, table ne)
      ] in
    let slot : ip'.addrs ndirect ≡ ip.addrs ndirect = ground arith in
    record {
      nonzero = fresh_nonzero d b d' ok.fs a;
      here = ground arith;
      old = λ n. absurd (n z);
      blank = λ _. a.zeroed;
      others = λ k m n. shape k m ∙ ground arith;
      kept = λ c o n. data_kept d b d' c a o;
      fresh = λ _ c o. used_ne d b d' c a o.in_use;
      table = λ c o n. rw slot n;
      grows = Allocated-Grows d b d' a;
      ok = record {
        fs = Allocated-FsOk d b d' a ok.fs;
        owns =
            subst (λ t. Owns d' (addr_of d' ip') t) (sym slot)
              (Owns-same d' _ _ _ shape
                (take_data d b d' (addr_of d ip) (ip.addrs ndirect) bn ok.fs a ok.owns));
      };
      same_size = refl;
      same_type = refl;
    }

pub direct-Bmap :
    (d : Dev) (ip : Dinode) (bn : ℕ) → FileOk d ip → bn < ndirect → Bmap d ip bn (own_slot d ip bn)
unfolding own_slot addr_of
direct-Bmap d ip bn ok l = elim (Bool-cases (ip.addrs bn == 0)) [
  | inl z ↦ rw z (go (balloc d) (balloc-Allocated d ok.fs.reserved) (ground arith))
  | inr n ↦
      let same : addr_of d ip bn ≡ ip.addrs bn = ground arith in
      rw n (subst (λ a. Mapped d ip bn a ip d) same (Mapped-old d ip bn ok (ground arith)))
]
  where
    go :
        (r : Result (ℕ × Dev))
        → Balloc d r
        → addr_of d ip bn ≡ 0
        → Bmap d ip bn (elim r [
          | panics d' ↦ panics d'
          | returns r ↦ returns (r.0, record ip { addrs = update ip.addrs bn r.0 }, r.1)
        ])
    go (panics d') b z = rw b.0 (b.1, z)
    go (returns r) a z = direct_new d ip bn r.0 r.1 ok l z a
