-- ===== src/Fs/Sample.antt =====
-- A small disk of fs.c with one file, for the tests.
use dockv6_project.Base.{
  ℕ, ◌<◌, ◌≡◌, ◌≢◌, refl, arith, [], if◌then◌else◌, ◌==◌, sym, ◌∙◌, ℕ_discrete,
}
use dockv6_project.CString.{View}
use dockv6_project.Fs.{Superblock, Dev, readsb, bblock, bit_of}
use dockv6_project.Fs.Alloc.{used, MapReserved, FsOk}
use dockv6_project.Fs.Inode.{Dinode}
use dockv6_project.Fs.Owned.{DataBlock, Owns}
use dockv6_project.Fs.Bmap.{addr_of, FileOk}
use dockv6_project.Fs.Content.{Foreign}
use dockv6_project.Fs.FileIo.{OpenFile}

abbrev small_sb : Superblock
small_sb = record {
  size = 16;
  nblocks = 12;
  ninodes = 16;
  nlog = 0;
  logstart = 0;
  inodestart = 3;
  bmapstart = 2;
}

-- Block 1 is the super block, block 2 the free map with blocks 0 to 4 in use, block 3 holds the
-- inodes, and block 4 belongs to the file.
abbrev small_block : ℕ → View
small_block b =
    if b == 1
    then (λ i.
        if i == 0
        then 16
        else if i == 4
        then 12
        else if i == 8
        then 16
        else if i == 20
        then 3
        else if i == 24
        then 2
        else 0)
    else if b == 2
    then (λ i. if i == 0 then 31 else 0)
    else (λ _. 0)

abbrev pub small : Dev
small = record { sb = small_sb; block = small_block; logged = [] }

abbrev pub one_block : Dinode
one_block = record {
  itype = 2;
  major = 0;
  minor = 0;
  nlink = 1;
  size = 700;
  addrs = λ i. if i == 0 then 4 else 0;
}

small-in_use : (k : ℕ) → k < 5 → used small k ≢ 0
unfolding used bit_of
small-in_use k l = elim (ℕ_discrete k 0) [
  | yes e0 ↦ rw e0 (λ z. omega (arith, z))
  | no n0 ↦ elim (ℕ_discrete k 1) [
    | yes e1 ↦ rw e1 (λ z. omega (arith, z))
    | no n1 ↦ elim (ℕ_discrete k 2) [
      | yes e2 ↦ rw e2 (λ z. omega (arith, z))
      | no n2 ↦ elim (ℕ_discrete k 3) [
        | yes e3 ↦ rw e3 (λ z. omega (arith, z))
        | no n3 ↦ elim (ℕ_discrete k 4) [
          | yes e4 ↦ rw e4 (λ z. omega (arith, z))
          | no n4 ↦ absurd (omega arith)
        ]
      ]
    ]
  ]
]

small_map : (k : ℕ) → k < 16 → bblock small_sb k ≡ 2
small_map k l = omega arith

pub small-MapReserved : MapReserved small
small-MapReserved k l = rw (small_map k l) (omega arith, small-in_use 2 (omega arith))

small-sb_read : readsb small ≡ small.sb
unfolding readsb
small-sb_read = refl

small-FsOk : FsOk small
small-FsOk = record {
  sb_read = small-sb_read;
  reserved = small-MapReserved;
  behind = omega arith;
  two = omega arith;
  sb_used = small-in_use 1 (omega arith);
  boot_used = small-in_use 0 (omega arith);
  small = omega arith;
}

small-DataBlock : (c : ℕ) → c < 5 → 2 < c → DataBlock small c
small-DataBlock c l m = record {
  below = omega arith;
  in_use = small-in_use c l;
  no_sb = omega arith;
  no_map = λ k lk. omega (arith, small_map k lk);
}

only_first : (k : ℕ) → addr_of small one_block k ≢ 0 → (k ≡ 0) × (addr_of small one_block k ≡ 4)
unfolding addr_of
only_first k n = ground arith

one_block-Owns : Owns small (addr_of small one_block) 0
one_block-Owns = record {
  blocks = λ k l n. rw (only_first k n).1 (small-DataBlock 4 (omega arith) (omega arith));
  table = λ n. absurd (n refl);
  apart = λ k l n. n;
  distinct = λ j k l m n e. (only_first j n).0 ∙ sym (only_first k (λ z. n (e ∙ z))).0;
}

pub one_block-FileOk : FileOk small one_block
one_block-FileOk = record { fs = small-FsOk; owns = one_block-Owns }

-- The inode is number 1.
pub one_block-Foreign : Foreign small one_block 3
one_block-Foreign = record {
  block = small-DataBlock 3 (omega arith) (omega arith);
  no_table = omega arith;
  no_data = λ k l e. omega (arith, e, (only_first k (λ z. omega (arith, e, z))).1);
}

pub one_block-OpenFile : OpenFile small 1 one_block
one_block-OpenFile = record {
  ok = one_block-FileOk;
  node = one_block-Foreign;
  no_dev = omega arith;
  bound = omega arith;
}
