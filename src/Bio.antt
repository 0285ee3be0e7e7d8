-- ===== src/Bio.antt =====
-- bio.c: the buffer cache, as far as it hands out buffers. A pointer to a buffer is its index; `head`
-- is the entry NBUF of the links. The list's lock is held within a step; `pid` is the caller.
pub mod Unique
mod Tests
use dockv6_project.Base.{
  ℕ, zero, suc, ◌+◌, ◌==◌, if◌then◌else◌, ◌&&◌, not, Bool, true, false, Option, none, some, is_null,
  same_ptr, update,
}
use dockv6_project.Kernel.{inc32, dec32}

abbrev pub nbuf : ℕ
nbuf = 30

-- `&bcache.head`
abbrev pub head : ℕ
head = nbuf

-- `struct buf`, less its data, which the model of the log and the file system keep; `locked` is the
-- holder of its lock.
pub record Buf : Type 0 where
  pub valid : Bool
  pub dirty : Bool
  pub dev : ℕ
  pub blockno : ℕ
  pub locked : Option ℕ
  pub refcnt : ℕ

pub record Bcache : Type 0 where
  pub buf : ℕ → Buf
  pub next : ℕ → ℕ
  pub prev : ℕ → ℕ

-- A buffer put in front: the last four assignments of a round of `binit`, and of `brelse`.
abbrev pub link_front : Bcache → ℕ → Bcache
link_front c b =
    let next = update c.next b (c.next head) in
    let prev = update c.prev b head in
    record c { next = update next head b; prev = update prev (next head) b }

unfoldable pub binit_loop : ℕ → ℕ → Bcache → Bcache
binit_loop zero b c = c
binit_loop (suc n) b c = binit_loop n (suc b) (link_front c b)

unfoldable pub binit : Bcache → Bcache
unfolding binit_loop
binit c =
    binit_loop nbuf 0 (record c { next = update c.next head head; prev = update c.prev head head })

-- `for (b = ...; b != &bcache.head; b = b->next)`, or `b->prev`.
unfoldable pub search : ℕ → (ℕ → ℕ) → (ℕ → Bool) → ℕ → Option ℕ
search zero link test b = none
search (suc fuel) link test b =
    let rest = search fuel link test (link b) in
    if b == head then none else if test b then some b else rest

abbrev pub is_for : ℕ → ℕ → Buf → Bool
is_for dev blockno b = (b.dev == dev) && (b.blockno == blockno)

-- `b->refcnt == 0 && (b->flags & B_DIRTY) == 0`
abbrev pub is_unused : Buf → Bool
is_unused b = (b.refcnt == 0) && not b.dirty

abbrev pub set_buf : Bcache → ℕ → Buf → Bcache
set_buf c i b = record c { buf = update c.buf i b }

abbrev pub count_up : Buf → Buf
count_up b = record b { refcnt = inc32 b.refcnt }

abbrev pub recycled : Buf → ℕ → ℕ → Buf
recycled b dev blockno = record b {
  dev = dev;
  blockno = blockno;
  valid = false;
  dirty = false;
  refcnt = 1;
}

-- The buffer that `bget` counts, before it waits for the buffer's lock; `none` is the panic.
unfoldable pub choose : Bcache → ℕ → ℕ → Option (ℕ × Bcache)
unfolding search
choose c dev blockno =
    elim (search (nbuf + 1) c.next (λ i. is_for dev blockno (c.buf i)) (c.next head)) [
      | some i ↦ some (i, set_buf c i (count_up (c.buf i)))
      | none ↦ elim (search (nbuf + 1) c.prev (λ i. is_unused (c.buf i)) (c.prev head)) [
        | some i ↦ some (i, set_buf c i (recycled (c.buf i) dev blockno))
        | none ↦ none
      ]
    ]

-- `acquiresleep(&b->lock)`: false where the caller must wait.
unfoldable pub lock_buf : Bcache → ℕ → ℕ → Bool × Bcache
lock_buf c pid i =
    if is_null (c.buf i).locked
    then (true, set_buf c i (record (c.buf i) { locked = some pid }))
    else (false, c)

unfoldable pub bget : Bcache → ℕ → ℕ → ℕ → Option (ℕ × Bool × Bcache)
unfolding choose lock_buf
bget c pid dev blockno = elim (choose c dev blockno) [
  | none ↦ none
  | some r ↦ let l = lock_buf r.1 pid r.0 in some (r.0, l.0, l.1)
]

-- `b->next->prev = b->prev; b->prev->next = b->next;`
abbrev pub unlink : Bcache → ℕ → Bcache
unlink c b =
    let prev = update c.prev (c.next b) (c.prev b) in
    record c { prev = prev; next = update c.next (prev b) (c.next b) }

-- `none` is a panic.
unfoldable pub brelse : Bcache → ℕ → ℕ → Option Bcache
brelse c pid i =
    let b = record (c.buf i) { locked = none; refcnt = dec32 (c.buf i).refcnt } in
    if same_ptr (c.buf i).locked (some pid)
    then some (if b.refcnt == 0 then link_front (unlink (set_buf c i b) i) i else set_buf c i b)
    else none
