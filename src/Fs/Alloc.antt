-- ===== src/Fs/Alloc.antt =====
-- The free map of fs.c: what `balloc` and `bfree` do to it.
use dockv6_project.Base.{
  ℕ, zero, suc, ◌+◌, ◌-◌, ◌*◌, ◌/◌, ◌%◌, ◌^◌, ◌≤◌, ◌<◌, ◌≡◌, ◌≢◌, inl, inr, refl, arith, sym, ap,
  ◌∙◌, subst, ℕ_discrete, ◌==◌, ◌∷◌, ltb, false, Bool-cases, find_first_cases, dec_lt,
}
use dockv6_project.CString.{View}
use dockv6_project.CString.Fill.{memset-Filled}
use dockv6_project.Fs.{
  Dev, Result, panics, returns, bsize, bpb, bblock, bit_at, set_bit, bits_of, free_bit, mark_used,
  bzero, balloc_from, balloc, readsb,
}
use dockv6_project.Fs.Bits.{set_bit-same, set_bit-other}

-- The bit of block `k` in the free map.
unfoldable pub used : Dev → ℕ → ℕ
used d k = bit_at (d.block (bblock d.sb k)) (k % bpb)

-- The blocks that hold the free map are marked in use themselves.
abbrev pub MapReserved : Dev → Type 0
MapReserved d = (k : ℕ) → k < d.sb.size → (bblock d.sb k < d.sb.size) × used d (bblock d.sb k) ≢ 0

abbrev pub Full : Dev → Type 0
Full d = (k : ℕ) → k < d.sb.size → used d k ≢ 0

-- What `balloc` promises of the block it returns.
pub record Allocated (d : Dev) (b : ℕ) (d' : Dev) : Type 0 where
  pub in_range : b < d.sb.size
  pub was_free : used d b ≡ 0
  pub first : (k : ℕ) → k < b → used d k ≢ 0
  pub now_used : used d' b ≡ 1
  pub others : (k : ℕ) → k < d.sb.size → k ≢ b → used d' k ≡ used d k
  pub zeroed : (i : ℕ) → i < bsize → d'.block b i ≡ 0
  pub contents : (c : ℕ) → c ≢ b → c ≢ bblock d.sb b → d'.block c ≡ d.block c
  pub same_sb : d'.sb ≡ d.sb
  pub logs : d'.logged ≡ b ∷ bblock d.sb b ∷ d.logged

abbrev pub Balloc : Dev → Result (ℕ × Dev) → Type 0
Balloc d (panics d') = (d' ≡ d) × Full d
Balloc d (returns r) = Allocated d r.0 r.1

-- One bit of the map is changed by `op`.
pub record MapStep (op : View → ℕ → View) (d d' : Dev) (x : ℕ) : Type 0 where
  pub same_sb : d'.sb ≡ d.sb
  pub changed : d'.block (bblock d.sb x) ≡ op (d.block (bblock d.sb x)) (x % bpb)
  pub rest :
      (k : ℕ)
      → k < d.sb.size
      → bblock d.sb k ≢ bblock d.sb x
      → d'.block (bblock d.sb k) ≡ d.block (bblock d.sb k)

set-used : (d d' : Dev) (x : ℕ) → MapStep set_bit d d' x → used d x ≡ 0 → used d' x ≡ 1
unfolding used
set-used d d' x s h = rw (s.same_sb, s.changed) (set_bit-same (d.block (bblock d.sb x)) (x % bpb) h)

set-others :
    (d d' : Dev) (x k : ℕ)
    → MapStep set_bit d d' x
    → used d x ≡ 0
    → k < d.sb.size
    → k ≢ x
    → used d' k ≡ used d k
unfolding used
set-others d d' x k s h l ne = elim (ℕ_discrete (k / bpb) (x / bpb)) [
  | yes e ↦
      let same : bblock d.sb k ≡ bblock d.sb x = omega (arith, e) in
      rw (s.same_sb, same, s.changed)
        (set_bit-other (d.block (bblock d.sb x)) (x % bpb) (k % bpb) h (λ e'. ne (omega arith)))
  | no n ↦ rw (s.same_sb, s.rest k l (λ e. n (omega arith))) refl
]

-- A block that is free is no block of the map.
free_outside :
    (d : Dev) (x k : ℕ) → MapReserved d → used d x ≡ 0 → k < d.sb.size → bblock d.sb k ≢ x
free_outside d x k mr h l e = (mr k l).1 (subst (λ c. used d c ≡ 0) (sym e) h)

-- `mark_used` and `bzero` of a free block.
taken-MapStep :
    (d : Dev) (b bi : ℕ)
    → MapReserved d
    → used d (b + bi) ≡ 0
    → b + bi < d.sb.size
    → bblock d.sb (b + bi) ≡ bblock d.sb b
    → (b + bi) % bpb ≡ bi
    → MapStep set_bit d (bzero (mark_used d b bi) (b + bi)) (b + bi)
unfolding bzero
taken-MapStep d b bi mr free lx same_block same_bit =
    let out : (k : ℕ) → k < d.sb.size → bblock d.sb k ≢ b + bi =
      λ k l. free_outside d (b + bi) k mr free l in
    record {
      same_sb = refl;
      changed = ground (arith, out (b + bi) lx);
      rest = λ k l ne. ground (arith, out k l);
    }

taken :
    (d : Dev) (b bi : ℕ)
    → MapReserved d
    → b % bpb ≡ 0
    → bi < bpb
    → b + bi < d.sb.size
    → ((k : ℕ) → k < b + bi → used d k ≢ 0)
    → used d (b + bi) ≡ 0
    → Allocated d (b + bi) (bzero (mark_used d b bi) (b + bi))
unfolding bzero
taken d b bi mr al lo lx before free =
    let same_block : bblock d.sb (b + bi) ≡ bblock d.sb b = omega arith in
    let same_bit : (b + bi) % bpb ≡ bi = omega arith in
    let d' = bzero (mark_used d b bi) (b + bi) in
    let step = taken-MapStep d b bi mr free lx same_block same_bit in
    let clear = memset-Filled ((mark_used d b bi).block (b + bi)) 0 0 bsize in
    record {
      in_range = lx;
      was_free = free;
      first = before;
      now_used = set-used d d' (b + bi) step free;
      others = λ k l ne. set-others d d' (b + bi) k step free l ne;
      zeroed = λ i l. ground (arith, clear.filled i (omega arith) (omega arith));
      contents = λ c n m. ground arith;
      same_sb = refl;
      logs = ap (λ c. (b + bi) ∷ c ∷ d.logged) (sym same_block);
    }

used_at :
    (d : Dev) (b bi : ℕ)
    → b % bpb ≡ 0
    → bi < bpb
    → used d (b + bi) ≡ bit_at (d.block (bblock d.sb b)) bi
unfolding used
used_at d b bi al lo =
    let same_block : bblock d.sb (b + bi) ≡ bblock d.sb b = omega arith in
    let same_bit : (b + bi) % bpb ≡ bi = omega arith in rw (same_block, same_bit) refl

bits_before :
    (d : Dev) (b n : ℕ)
    → b % bpb ≡ 0
    → n ≤ bpb
    → ((k : ℕ) → k < b → used d k ≢ 0)
    → ((bi : ℕ) → bi < n → (bit_at (d.block (bblock d.sb b)) bi == 0) ≡ false)
    → (k : ℕ) → k < b + n
    → used d k ≢ 0
bits_before d b n al hi before miss k l = elim (dec_lt k b) [
  | yes l' ↦ before k l'
  | no n' ↦ λ e.
      let back : b + (k - b) ≡ k = omega arith in
      let here = used_at d b (k - b) al (omega arith) in ground (arith, miss (k - b) (omega arith))
]

balloc_from_lem :
    (n : ℕ) (d : Dev) (b : ℕ)
    → MapReserved d
    → b % bpb ≡ 0
    → d.sb.size < b + n * bpb
    → ((k : ℕ) → k < b → k < d.sb.size → used d k ≢ 0)
    → Balloc d (balloc_from n d b)
unfolding balloc_from free_bit
balloc_from_lem zero d b mr al hi before = (refl, λ k l. before k (omega arith) l)
balloc_from_lem (suc n) d b mr al hi before = elim (Bool-cases (ltb b d.sb.size)) [
  | inr past ↦ rw past (refl, λ k l. before k (ground arith) l)
  | inl more ↦
      let v = d.block (bblock d.sb b) in
      let within : b < d.sb.size = ground arith in
      let few : bits_of d.sb.size b ≤ bpb = ground arith in
      let inside : b + bits_of d.sb.size b ≤ d.sb.size = ground arith in
      rw more (elim (find_first_cases (bits_of d.sb.size b) 0 (λ bi. bit_at v bi == 0)) [
        | inl (e, none_free) ↦ rw e (
            balloc_from_lem n d (b + bpb) mr (omega arith) (omega arith) (λ k l m.
              bits_before d b (bits_of d.sb.size b) al few (λ j o. before j o (omega arith))
                (λ j o. none_free j (omega arith) (omega arith)) k (ground arith)))
        | inr (bi, e, at) ↦
            let free : used d (b + bi) ≡ 0 =
              ground (arith, used_at d b bi al (omega (arith, at.below)), at.passes) in
            rw e (
              taken d b bi mr al (omega (arith, at.below)) (omega (arith, at.below))
                (bits_before d b bi al (omega (arith, at.below)) (λ j o. before j o (omega arith))
                  (λ j l. at.earlier j (omega arith) l))
                free)
      ])
]

-- `balloc` takes the first block that is free, marks it, zeroes it and logs the two blocks it has
-- changed: no other bit of the map changes, and no other block but that of the map. It panics only
-- when every block is in use, with nothing changed. The map's own blocks are marked in use.
pub balloc-Allocated : (d : Dev) → MapReserved d → Balloc d (balloc d)
unfolding balloc
balloc-Allocated d mr =
    balloc_from_lem (d.sb.size / bpb + 1) d 0 mr (omega arith) (omega arith)
      (λ k l m. absurd (omega arith))

-- The blocks that are no file's: the boot block, the super block and the free map are marked in use, and the super
-- block in memory is the one on the disk.
pub record FsOk (d : Dev) : Type 0 where
  pub sb_read : readsb d ≡ d.sb
  pub reserved : MapReserved d
  pub behind : 1 < d.sb.bmapstart
  pub two : 1 < d.sb.size
  pub sb_used : used d 1 ≢ 0
  pub boot_used : used d 0 ≢ 0
  pub small : d.sb.size < 2 ^ 32

pub readsb-block : (d d' : Dev) → d'.block 1 ≡ d.block 1 → readsb d' ≡ readsb d
unfolding readsb
readsb-block d d' e = rw e refl

pub Allocated-FsOk : (d : Dev) (b : ℕ) (d' : Dev) → Allocated d b d' → FsOk d → FsOk d'
Allocated-FsOk d b d' a ok =
    let used_still : (k : ℕ) → k < d.sb.size → used d k ≢ 0 → used d' k ≢ 0 = λ k l u.
      elim (ℕ_discrete k b) [
        | yes e ↦ absurd (u (subst (λ j. used d j ≡ 0) (sym e) a.was_free))
        | no n ↦ λ z. u (sym (a.others k l n) ∙ z)
      ] in
    let one : 1 ≢ b = λ e. ok.sb_used (subst (λ j. used d j ≡ 0) (sym e) a.was_free) in
    record {
      sb_read =
          readsb-block d d' (a.contents 1 one (omega (arith, ok.behind)))
          ∙ ok.sb_read
          ∙ sym a.same_sb;
      reserved =
          subst (λ q. (k : ℕ) → k < q.size → (bblock q k < q.size) × used d' (bblock q k) ≢ 0)
            (sym a.same_sb)
            (λ k l. ((ok.reserved k l).0, used_still _ (ok.reserved k l).0 (ok.reserved k l).1));
      behind = rw a.same_sb ok.behind;
      two = rw a.same_sb ok.two;
      sb_used = used_still 1 ok.two ok.sb_used;
      boot_used = used_still 0 (omega (arith, ok.two)) ok.boot_used;
      small = rw a.same_sb ok.small;
    }
