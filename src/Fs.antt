-- ===== src/Fs.antt =====
-- fs.c and fs.h: the file system. `Dev` is what `bread` shows of each block of the one disk, with the
-- super block `sb` and the block numbers passed to `log_write`, the last one first; what the log
-- does with them is the model of log.c. Buffers are locked and released within one call.
pub mod Bits
pub mod Alloc
pub mod Freeing
pub mod Inode
pub mod Owned
pub mod Bmap
pub mod Table
pub mod Content
pub mod Dinodes
pub mod Writes
pub mod Reads
pub mod FileIo
pub mod ReadBack
pub mod Truncate
pub mod Emptied
pub mod Icache
pub mod References
pub mod Lifetime
pub mod Dir
pub mod Lookup
pub mod Path
pub mod Elements
pub mod Rounds
pub mod Sample
mod Tests
use dockv6_project.Base.{
  ℕ, zero, suc, ◌+◌, ◌-◌, ◌*◌, ◌/◌, ◌%◌, ◌^◌, ◌==◌, if◌then◌else◌, ltb, Bool, Option, none, some,
  List, ◌∷◌, update, find_first,
}
use dockv6_project.CString.{View, memset}
use dockv6_project.Kalloc.{get_word}

abbrev pub bsize : ℕ
bsize = 1024

-- `BPB`: bits of a block.
abbrev pub bpb : ℕ
bpb = bsize * 8

pub record Superblock : Type 0 where
  pub size : ℕ
  pub nblocks : ℕ
  pub ninodes : ℕ
  pub nlog : ℕ
  pub logstart : ℕ
  pub inodestart : ℕ
  pub bmapstart : ℕ

pub record Dev : Type 0 where
  pub sb : Superblock
  pub block : ℕ → View
  pub logged : List ℕ

-- A result, or the panic and the disk it was met at.
pub data Result {ℓ} (A : Type ℓ) : Type ℓ where
  panics : Dev → Result A
  returns : A → Result A

-- `readsb`: the super block is the first seven words of block 1.
unfoldable pub readsb : Dev → Superblock
readsb d = record {
  size = get_word (d.block 1) 0;
  nblocks = get_word (d.block 1) 4;
  ninodes = get_word (d.block 1) 8;
  nlog = get_word (d.block 1) 12;
  logstart = get_word (d.block 1) 16;
  inodestart = get_word (d.block 1) 20;
  bmapstart = get_word (d.block 1) 24;
}

-- A buffer of block `b` that now holds `v`, and `log_write` of it.
abbrev pub logged_write : Dev → ℕ → View → Dev
logged_write d b v = record d { block = update d.block b v; logged = b ∷ d.logged }

unfoldable pub bzero : Dev → ℕ → Dev
bzero d b = logged_write d b (memset (d.block b) 0 0 bsize)

-- `BBLOCK(b, sb)`
abbrev pub bblock : Superblock → ℕ → ℕ
bblock sb b = b / bpb + sb.bmapstart

-- `1 << i`, and the bit `i` of a byte.
unfoldable pub shift_one : ℕ → ℕ
shift_one zero = 1
shift_one (suc i) = 2 * shift_one i

unfoldable pub bit_of : ℕ → ℕ → ℕ
bit_of zero v = v % 2
bit_of (suc i) v = bit_of i (v / 2)

-- `data[bi / 8] & m`, as 0 or 1, for the mask `m` that is `1 << (bi % 8)`.
abbrev pub bit_at : View → ℕ → ℕ
bit_at v bi = bit_of (bi % 8) (v (bi / 8))

-- `data[bi / 8] |= m` where the bit is 0, and `data[bi / 8] &= ~m` where it is 1.
abbrev pub set_bit : View → ℕ → View
set_bit v bi = update v (bi / 8) (v (bi / 8) + shift_one (bi % 8))

abbrev pub clear_bit : View → ℕ → View
clear_bit v bi = update v (bi / 8) (v (bi / 8) - shift_one (bi % 8))

-- How many values of `bi` the inner loop of `balloc` goes through.
abbrev pub bits_of : ℕ → ℕ → ℕ
bits_of size b = if ltb (size - b) bpb then size - b else bpb

-- The inner loop of `balloc`.
unfoldable pub free_bit : Dev → ℕ → Option ℕ
free_bit d b = find_first (bits_of d.sb.size b) 0 (λ bi. bit_at (d.block (bblock d.sb b)) bi == 0)

abbrev pub mark_used : Dev → ℕ → ℕ → Dev
mark_used d b bi = logged_write d (bblock d.sb b) (set_bit (d.block (bblock d.sb b)) bi)

-- `for (b = 0; b < sb.size; b += BPB)`, with `n` rounds left.
unfoldable pub balloc_from : ℕ → Dev → ℕ → Result (ℕ × Dev)
unfolding free_bit bzero
balloc_from zero d b = panics d
balloc_from (suc n) d b =
    let rest = balloc_from n d (b + bpb) in
    if ltb b d.sb.size
    then elim (free_bit d b) [
      | some bi ↦ returns (b + bi, bzero (mark_used d b bi) (b + bi))
      | none ↦ rest
    ]
    else panics d

unfoldable pub balloc : Dev → Result (ℕ × Dev)
unfolding balloc_from
balloc d = balloc_from (d.sb.size / bpb + 1) d 0

unfoldable pub bfree : Dev → ℕ → Result Dev
bfree d b =
    let sb = readsb d in
    let d1 = record d { sb = sb } in
    let v = d.block (bblock sb b) in
    if bit_at v (b % bpb) == 0
    then panics d1
    else returns (logged_write d1 (bblock sb b) (clear_bit v (b % bpb)))
