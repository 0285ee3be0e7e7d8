-- ===== src/Log.antt =====
-- log.c: the redo log of the file system. Of bio.c it takes what `bread` and `bwrite` give: `mem` is
-- what `bread` shows of each block, from the cache or else from the disk, and `bwrite` changes both.
-- The machine can stop between any two disk writes: only the first `left` writes reach the disk.
pub mod Header
pub mod Copies
pub mod Settled
pub mod Install
pub mod Recovery
pub mod Atomic
pub mod Transaction
mod Tests
use dockv6_project.Base.{
  ℕ, zero, suc, ◌+◌, ◌-◌, ◌*◌, ◌==◌, if◌then◌else◌, ltb, leb, ◌||◌, Bool, true, false, Option, none,
  some, update, find_first,
}
use dockv6_project.CString.{View, put_word}
use dockv6_project.Kalloc.{get_word}
use dockv6_project.Kernel.{dec32}

abbrev pub maxopblocks : ℕ
maxopblocks = 10

abbrev pub logsize : ℕ
logsize = 30

-- `struct log` with its header `lh`.
pub record Log : Type 0 where
  pub start : ℕ
  pub size : ℕ
  pub outstanding : ℕ
  pub committing : Bool
  pub n : ℕ
  pub block : ℕ → ℕ

pub record Store : Type 0 where
  pub mem : ℕ → View
  pub disk : ℕ → View
  pub left : ℕ

-- `bwrite` of a buffer of block `b` that holds `v`.
abbrev pub bwrite : Store → ℕ → View → Store
bwrite s b v = record {
  mem = update s.mem b v;
  disk = if s.left == 0 then s.disk else update s.disk b v;
  left = s.left - 1;
}

-- The loop of `install_trans` and `write_log`: it copies block `src tail` to block `dst tail`, for
-- `n` values of `tail` from `i` on.
unfoldable pub copy_blocks : ℕ → ℕ → (ℕ → ℕ) → (ℕ → ℕ) → Store → Store
copy_blocks zero i dst src s = s
copy_blocks (suc n) i dst src s = copy_blocks n (suc i) dst src (bwrite s (dst i) (s.mem (src i)))

-- `log.start + tail + 1`
abbrev pub log_block : Log → ℕ → ℕ
log_block lg tail = lg.start + tail + 1

abbrev pub install_trans : Log → Store → Store
install_trans lg s = copy_blocks lg.n 0 lg.block (log_block lg) s

abbrev pub write_log : Log → Store → Store
write_log lg s = copy_blocks lg.n 0 (log_block lg) lg.block s

-- `hb->block[i] = log.lh.block[i]`, for `n` values of `i`.
unfoldable pub put_entries : ℕ → ℕ → (ℕ → ℕ) → View → View
put_entries zero i block v = v
put_entries (suc n) i block v = put_entries n (suc i) block (put_word v (4 * i + 4) (block i))

-- The header block that `write_head` writes over the old one.
unfoldable pub head_block : ℕ → (ℕ → ℕ) → View → View
head_block n block v = put_entries n 0 block (put_word v 0 n)

abbrev pub write_head : Log → Store → Store
write_head lg s = bwrite s lg.start (head_block lg.n lg.block (s.mem lg.start))

-- `lh->n` and `lh->block[i]` of a header block.
abbrev pub head_n : View → ℕ
head_n v = get_word v 0

abbrev pub head_entry : View → ℕ → ℕ
head_entry v i = get_word v (4 * i + 4)

abbrev pub read_head : Log → Store → Log
read_head lg s =
    let v = s.mem lg.start in
    record lg { n = head_n v; block = λ i. if ltb i (head_n v) then head_entry v i else lg.block i }

-- What `recover_from_log` and `commit` end with: `install_trans`, then an empty header.
abbrev pub cleared : Log → Log
cleared lg = record lg { n = 0 }

unfoldable pub install_and_clear : Log → Store → Store
install_and_clear lg s = write_head (cleared lg) (install_trans lg s)

unfoldable pub recover_from_log : Log → Store → Log × Store
unfolding install_and_clear
recover_from_log lg s = let lg' = read_head lg s in (cleared lg', install_and_clear lg' s)

unfoldable pub commit : Log → Store → Log × Store
unfolding install_and_clear
commit lg s =
    if lg.n == 0
    then (lg, s)
    else (cleared lg, install_and_clear lg (write_head lg (write_log lg s)))

-- One round of `begin_op`: whether it gets through, or else sleeps and starts over.
unfoldable pub begin_op : Log → Bool × Log
begin_op lg =
    if lg.committing || ltb logsize (lg.n + (lg.outstanding + 1) * maxopblocks)
    then (false, lg)
    else (true, record lg { outstanding = lg.outstanding + 1 })

pub data EndOp : Type 0 where
  panics : EndOp
  -- wakes those who wait for log space
  goes_on : Log → EndOp
  -- goes on to `commit`
  commits : Log → EndOp

unfoldable pub end_op : Log → EndOp
end_op lg =
    let lg' = record lg { outstanding = dec32 lg.outstanding } in
    if lg.committing
    then panics
    else if lg'.outstanding == 0
    then commits (record lg' { committing = true })
    else goes_on lg'

-- What `end_op` does behind `commit`.
unfoldable pub after_commit : Log → Log
after_commit lg = record lg { committing = false }

-- Where the loop of `log_write` stops: at the entry of that block, or behind the last one.
unfoldable pub entry_for : Log → ℕ → ℕ
entry_for lg b = elim (find_first lg.n 0 (λ i. lg.block i == b)) [ none ↦ lg.n | some i ↦ i ]

-- `log_write` of block `b`; `none` is a panic. That it pins the buffer belongs to bio.c.
unfoldable pub log_write : Log → ℕ → Option Log
log_write lg b =
    if leb logsize lg.n || leb lg.size (lg.n + 1)
    then none
    else if ltb lg.outstanding 1
    then none
    else (let i = entry_for lg b in
        some (record lg { block = update lg.block i b; n = if i == lg.n then lg.n + 1 else lg.n }))
