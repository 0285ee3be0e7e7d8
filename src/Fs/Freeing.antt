-- ===== src/Fs/Freeing.antt =====
-- `bfree` of fs.c.
use dockv6_project.Base.{
  ℕ, ◌/◌, ◌%◌, ◌<◌, ◌≡◌, ◌≢◌, inl, inr, refl, arith, ℕ_discrete, update, ◌==◌, ◌∷◌, Bool-cases,
}
use dockv6_project.Fs.{Dev, Result, panics, returns, bpb, bblock, bit_at, clear_bit, bfree, readsb}
use dockv6_project.Fs.Bits.{clear_bit-same, clear_bit-other}
use dockv6_project.Fs.Alloc.{used, MapStep}

clear-used : (d d' : Dev) (x : ℕ) → MapStep clear_bit d d' x → used d x ≢ 0 → used d' x ≡ 0
unfolding used
clear-used d d' x s h =
    rw (s.same_sb, s.changed) (clear_bit-same (d.block (bblock d.sb x)) (x % bpb) h)

clear-others :
    (d d' : Dev) (x k : ℕ)
    → MapStep clear_bit d d' x
    → used d x ≢ 0
    → k < d.sb.size
    → k ≢ x
    → used d' k ≡ used d k
unfolding used
clear-others d d' x k s h l ne = elim (ℕ_discrete (k / bpb) (x / bpb)) [
  | yes e ↦
      let same : bblock d.sb k ≡ bblock d.sb x = omega (arith, e) in
      rw (s.same_sb, same, s.changed)
        (clear_bit-other (d.block (bblock d.sb x)) (x % bpb) (k % bpb) h (λ e'. ne (omega arith)))
  | no n ↦ rw (s.same_sb, s.rest k l (λ e. n (omega arith))) refl
]

-- What `bfree` does to a block in use.
pub record Freed (d : Dev) (b : ℕ) (d' : Dev) : Type 0 where
  pub now_free : used d' b ≡ 0
  pub others : (k : ℕ) → k < d.sb.size → k ≢ b → used d' k ≡ used d k
  pub contents : (c : ℕ) → c ≢ bblock d.sb b → d'.block c ≡ d.block c
  pub same_sb : d'.sb ≡ d.sb
  pub logs : d'.logged ≡ bblock d.sb b ∷ d.logged

abbrev pub Bfree : Dev → ℕ → Result Dev → Type 0
Bfree d b (panics d') = (d' ≡ d) × (used d b ≡ 0)
Bfree d b (returns d') = (used d b ≢ 0) × Freed d b d'

-- `bfree` of a block in use clears its bit and no other one, and changes no other block; of a block
-- that is free already it panics. The super block in memory is the one on the disk.
pub bfree-Freed : (d : Dev) (b : ℕ) → readsb d ≡ d.sb → Bfree d b (bfree d b)
unfolding bfree used
bfree-Freed d b same = elim (Bool-cases (bit_at (d.block (bblock d.sb b)) (b % bpb) == 0)) [
  | inl free ↦ rw (same, free) (refl, ground arith)
  | inr in_use ↦
      let busy : used d b ≢ 0 = ground arith in
      let d' : Dev = record {
        sb = d.sb;
        block = update d.block (bblock d.sb b) (clear_bit (d.block (bblock d.sb b)) (b % bpb));
        logged = bblock d.sb b ∷ d.logged;
      } in
      let step : MapStep clear_bit d d' b = record {
        same_sb = refl;
        changed = ground arith;
        rest = λ k l ne. ground arith;
      } in
      rw (same, in_use)
        (
          busy,
          record {
            now_free = clear-used d d' b step busy;
            others = λ k l ne. clear-others d d' b k step busy l ne;
            contents = λ c ne. ground arith;
            same_sb = refl;
            logs = refl;
          },
        )
]
