-- ===== src/Pipe.antt =====
-- pipe.c: a pipe is a ring of 512 bytes with two 32-bit counters. Each definition is what the code
-- does while it holds `p->lock`; where it sleeps, it stops with what is left to do, and goes on from
-- there. The calls of `wakeup` are on `&p->nread` and `&p->nwrite`, which `Wake` names.
pub mod Contents
pub mod Transfer
mod Tests
use dockv6_project.Base.{
  ℕ, zero, suc, ◌+◌, ◌%◌, ◌^◌, ◌==◌, if◌then◌else◌, ◌&&◌, ◌||◌, not, Bool, true, false, List, [],
  ◌∷◌, update,
}

abbrev pub pipesize : ℕ
pipesize = 512

-- `struct pipe`, less its lock.
pub record Pipe : Type 0 where
  pub bytes : ℕ → ℕ
  pub nread : ℕ
  pub nwrite : ℕ
  pub readopen : Bool
  pub writeopen : Bool

-- The pipe that `pipealloc` sets up in a page; the bytes of the page are what they were.
abbrev pub fresh : (ℕ → ℕ) → Pipe
fresh page = record { bytes = page; nread = 0; nwrite = 0; readopen = true; writeopen = true }

-- Whom a call wakes.
pub data Wake : Type 0 where
  readers writers : Wake

-- `pipeclose`: the pipe, whom it wakes, and whether the page is freed.
unfoldable pub pipeclose : Pipe → Bool → Pipe × Wake × Bool
pipeclose p writable =
    let p' = if writable then record p { writeopen = false } else record p { readopen = false } in
    (p', (if writable then readers else writers), not p'.readopen && not p'.writeopen)

-- `p->nwrite == p->nread + PIPESIZE`
abbrev pub is_full : Pipe → Bool
is_full p = p.nwrite == (p.nread + pipesize) % 2 ^ 32

-- `p->nread == p->nwrite`
abbrev pub is_empty : Pipe → Bool
is_empty p = p.nread == p.nwrite

-- `p->data[p->nwrite++ % PIPESIZE] = b`
abbrev pub put_byte : Pipe → ℕ → Pipe
put_byte p b = record p {
  bytes = update p.bytes (p.nwrite % pipesize) b;
  nwrite = (p.nwrite + 1) % 2 ^ 32;
}

pub data WriteEnd : Type 0 where
  -- returns n, and wakes the readers
  written : Pipe → WriteEnd
  -- returns -1
  refused : Pipe → WriteEnd
  -- wakes the readers, and sleeps with these bytes still to write
  sleeps : Pipe → List ℕ → WriteEnd

unfoldable pub pipewrite : Pipe → Bool → List ℕ → WriteEnd
pipewrite p killed [] = written p
pipewrite p killed (b ∷ bs) =
    let rest = pipewrite (put_byte p b) killed bs in
    if is_full p then (if not p.readopen || killed then refused p else sleeps p (b ∷ bs)) else rest

-- The copy loop of `piperead`, with room for `n` more bytes.
unfoldable pub copy_out : ℕ → Pipe → List ℕ × Pipe
copy_out zero p = ([], p)
copy_out (suc n) p =
    let rest = copy_out n (record p { nread = (p.nread + 1) % 2 ^ 32 }) in
    if is_empty p then ([], p) else (p.bytes (p.nread % pipesize) ∷ rest.0, rest.1)

pub data ReadEnd : Type 0 where
  -- returns the number of these bytes, and wakes the writers
  got : List ℕ → Pipe → ReadEnd
  interrupted : ReadEnd
  waits : ReadEnd

unfoldable pub piperead : Pipe → Bool → ℕ → ReadEnd
unfolding copy_out
piperead p killed n =
    if is_empty p && p.writeopen
    then (if killed then interrupted else waits)
    else (let (bs, p') = copy_out n p in got bs p')
