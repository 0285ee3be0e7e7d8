-- ===== src/Fs/Truncate.antt =====
-- `itrunc` of fs.c: all blocks of the file are freed, and no other.
use dockv6_project.Base.{
  ℕ, zero, suc, ◌+◌, ◌≤◌, ◌<◌, ◌≡◌, ◌≢◌, ◌⊎◌, inl, inr, refl, arith, sym, ap, ◌∙◌, subst,
  ℕ_discrete, update, ◌==◌, Bool-cases,
}
use dockv6_project.CString.{View}
use dockv6_project.Fs.{Dev, Result, panics, returns, bblock, bfree}
use dockv6_project.Fs.Alloc.{used, FsOk, readsb-block}
use dockv6_project.Fs.Freeing.{Freed, Bfree, bfree-Freed}
use dockv6_project.Fs.Inode.{Dinode, entry, free_direct, free_entries}
use dockv6_project.Fs.Owned.{DataBlock}

-- The blocks of `S` are freed, and nothing else.
pub record Frees (S : ℕ → Type 0) (d d' : Dev) : Type 0 where
  pub same_sb : d'.sb ≡ d.sb
  pub ok : FsOk d'
  pub bits : (k : ℕ) → k < d.sb.size → ((S k) → ⊥) → used d' k ≡ used d k
  pub freed : (k : ℕ) → k < d.sb.size → S k → used d' k ≡ 0
  pub free_still : (k : ℕ) → k < d.sb.size → used d k ≡ 0 → used d' k ≡ 0
  pub contents : (c : ℕ) → ((k : ℕ) → k < d.sb.size → bblock d.sb k ≢ c) → d'.block c ≡ d.block c

-- One block freed.
bfree-Frees :
    (d : Dev) (b : ℕ) (d' : Dev)
    → FsOk d
    → DataBlock d b
    → b ≢ 0
    → Freed d b d'
    → Frees (λ k. k ≡ b) d d'
bfree-Frees d b d' ok o nz f =
    let bit : (k : ℕ) → k < d.sb.size → k ≢ b → used d k ≢ 0 → used d' k ≢ 0 =
      λ k l n u z. u (sym (f.others k l n) ∙ z) in
    record {
      same_sb = f.same_sb;
      ok = record {
        sb_read =
            readsb-block d d' (f.contents 1 (omega (arith, ok.behind)))
            ∙ ok.sb_read
            ∙ sym f.same_sb;
        reserved =
            subst (λ q. (k : ℕ) → k < q.size → (bblock q k < q.size) × used d' (bblock q k) ≢ 0)
              (sym f.same_sb)
              (λ k l. (
                (ok.reserved k l).0,
                bit _ (ok.reserved k l).0 (o.no_map k l) (ok.reserved k l).1,
              ));
        behind = rw f.same_sb ok.behind;
        two = rw f.same_sb ok.two;
        sb_used = bit 1 ok.two (λ e. o.no_sb (sym e)) ok.sb_used;
        boot_used = bit 0 (omega (arith, ok.two)) (λ e. nz (sym e)) ok.boot_used;
        small = rw f.same_sb ok.small;
      };
      bits = λ k l n. f.others k l n;
      freed = λ k l e. ap (used d') e ∙ f.now_free;
      free_still = λ k l z. elim (ℕ_discrete k b) [
        | yes e ↦ ap (used d') e ∙ f.now_free
        | no n ↦ f.others k l n ∙ z
      ];
      contents = λ c oc. f.contents c (λ e. oc b o.below (sym e));
    }

pub Frees-refl : (d : Dev) (S : ℕ → Type 0) → FsOk d → ((k : ℕ) → S k → ⊥) → Frees S d d
Frees-refl d S ok none_ = record {
  same_sb = refl;
  ok = ok;
  bits = λ k l n. refl;
  freed = λ k l s. absurd (none_ k s);
  free_still = λ k l z. z;
  contents = λ c o. refl;
}

-- A data block that is not freed stays one.
pub Frees-DataBlock :
    (S : ℕ → Type 0) (d d' : Dev) (c : ℕ)
    → Frees S d d'
    → DataBlock d c
    → ((S c) → ⊥)
    → DataBlock d' c
Frees-DataBlock S d d' c f o n = record {
  below = rw f.same_sb o.below;
  in_use = λ z. o.in_use (sym (f.bits c o.below n) ∙ z);
  no_sb = o.no_sb;
  no_map = rw f.same_sb o.no_map;
}

pub Frees-trans :
    (S T U : ℕ → Type 0) (d d1 d2 : Dev)
    → Frees S d d1
    → Frees T d1 d2
    → ((k : ℕ) → U k → (S k) ⊎ (T k))
    → ((k : ℕ) → S k → U k)
    → ((k : ℕ) → T k → U k)
    → Frees U d d2
Frees-trans S T U d d1 d2 f g split su tu = record {
  same_sb = g.same_sb ∙ f.same_sb;
  ok = g.ok;
  bits = λ k l n. g.bits k (rw f.same_sb l) (λ t. n (tu k t)) ∙ f.bits k l (λ s. n (su k s));
  freed = λ k l u. elim (split k u) [
    | inl s ↦ g.free_still k (rw f.same_sb l) (f.freed k l s)
    | inr t ↦ g.freed k (rw f.same_sb l) t
  ];
  free_still = λ k l z. g.free_still k (rw f.same_sb l) (f.free_still k l z);
  contents = λ c o. g.contents c (rw f.same_sb o) ∙ f.contents c o;
}

-- The addresses in `f i`, …, `f (i + n - 1)` that are not 0.
abbrev pub In : (ℕ → ℕ) → ℕ → ℕ → ℕ → Type 0
In f i n c = (c ≢ 0) × (j : ℕ) × (i ≤ j) × (j < i + n) × (f j ≡ c)

-- They are data blocks, each there once.
pub record Ready (d : Dev) (f : ℕ → ℕ) (i n : ℕ) : Type 0 where
  pub each : (j : ℕ) → i ≤ j → j < i + n → f j ≢ 0 → DataBlock d (f j)
  pub once : (j k : ℕ) → i ≤ j → j < k → k < i + n → f k ≢ 0 → f k ≢ f j

Ready-next :
    (d : Dev) (f : ℕ → ℕ) (i n : ℕ) (d' : Dev)
    → Ready d f i (suc n)
    → Frees (λ k. k ≡ f i) d d'
    → Ready d' f (suc i) n
Ready-next d f i n d' r fr = record {
  each = λ j lo hi nz.
      Frees-DataBlock _ d d' (f j) fr (r.each j (omega arith) (omega arith) nz)
        (r.once i j (omega arith) (omega arith) (omega arith) nz);
  once = λ j k lo l hi nz. r.once j k (omega arith) l (omega arith) nz;
}

Ready-skip : (d : Dev) (f : ℕ → ℕ) (i n : ℕ) → Ready d f i (suc n) → Ready d f (suc i) n
Ready-skip d f i n r = record {
  each = λ j lo hi nz. r.each j (omega arith) (omega arith) nz;
  once = λ j k lo l hi nz. r.once j k (omega arith) l (omega arith) nz;
}

split_first : (f : ℕ → ℕ) (i n k : ℕ) → In f i (suc n) k → (k ≡ f i) ⊎ In f (suc i) n k
split_first f i n k (nz, j, lo, hi, e) = elim (ℕ_discrete i j) [
  | yes q ↦ inl (sym e ∙ sym (ap f q))
  | no ne ↦ inr (nz, j, omega arith, omega arith, e)
]

later : (f : ℕ → ℕ) (i n k : ℕ) → In f (suc i) n k → In f i (suc n) k
later f i n k (nz, j, lo, hi, e) = (nz, j, omega arith, omega arith, e)

Frees-skip :
    (d d' : Dev) (f : ℕ → ℕ) (i n : ℕ)
    → f i ≡ 0
    → Frees (In f (suc i) n) d d'
    → Frees (In f i (suc n)) d d'
Frees-skip d d' f i n z fr = record {
  same_sb = fr.same_sb;
  ok = fr.ok;
  bits = λ k l n'. fr.bits k l (λ t. n' (later f i n k t));
  freed = λ k l s. elim (split_first f i n k s) [
    | inl e ↦ absurd (s.0 (e ∙ z))
    | inr t ↦ fr.freed k l t
  ];
  free_still = fr.free_still;
  contents = fr.contents;
}

Frees-both :
    (d d1 d2 : Dev) (f : ℕ → ℕ) (i n : ℕ)
    → f i ≢ 0
    → Frees (λ k. k ≡ f i) d d1
    → Frees (In f (suc i) n) d1 d2
    → Frees (In f i (suc n)) d d2
Frees-both d d1 d2 f i n nz a b =
    Frees-trans (λ k. k ≡ f i) (In f (suc i) n) (In f i (suc n)) d d1 d2 a b (split_first f i n)
      (λ k e. ((λ z. nz (sym e ∙ z)), i, omega arith, omega arith, sym e)) (later f i n)

-- `bfree` of a data block does not panic.
pub bfree_succeeds :
    (d : Dev) (b : ℕ)
    → FsOk d
    → DataBlock d b
    → b ≢ 0
    → (d' : Dev) × (bfree d b ≡ returns d') × Frees (λ k. k ≡ b) d d'
bfree_succeeds d b ok o nz = go (bfree d b) refl (bfree-Freed d b ok.sb_read)
  where
    go :
        (r : Result Dev)
        → bfree d b ≡ r
        → Bfree d b r
        → (d' : Dev) × (bfree d b ≡ returns d') × Frees (λ k. k ≡ b) d d'
    go (panics d') e f = absurd (o.in_use f.1)
    go (returns d') e f = (d', e, bfree-Frees d b d' ok o nz f.1)

pub free_entries-Frees :
    (n i : ℕ) (d : Dev) (v : View)
    → FsOk d
    → Ready d (entry v) i n
    → (d' : Dev) × (free_entries n i d v ≡ returns d') × Frees (In (entry v) i n) d d'
unfolding free_entries
free_entries-Frees zero i d v ok r = (d, refl, Frees-refl d _ ok (λ k s. omega (arith, s.2, s.3)))
free_entries-Frees (suc n) i d v ok r = elim (Bool-cases (entry v i == 0)) [
  | inl z ↦
      let (d', e, fr) = free_entries-Frees n (suc i) d v ok (Ready-skip d _ i n r) in
      (d', rw z e, Frees-skip d d' (entry v) i n (ground arith) fr)
  | inr n0 ↦
      let nz : entry v i ≢ 0 = ground arith in
      let (d1, e1, f1) =
        bfree_succeeds d (entry v i) ok (r.each i (omega arith) (omega arith) nz) nz in
      let (d', e, fr) = free_entries-Frees n (suc i) d1 v f1.ok (Ready-next d _ i n d1 r f1) in
      (d', rw (n0, e1) e, Frees-both d d1 d' (entry v) i n nz f1 fr)
]

-- What the first loop leaves in the inode.
pub record Cleared (ip ip' : Dinode) (i n : ℕ) : Type 0 where
  pub zeroed : (j : ℕ) → i ≤ j → j < i + n → ip'.addrs j ≡ 0
  pub kept : (j : ℕ) → (j < i) ⊎ (i + n ≤ j) → ip'.addrs j ≡ ip.addrs j

Cleared-next :
    (ip ip' : Dinode) (i n : ℕ)
    → Cleared (record ip { addrs = update ip.addrs i 0 }) ip' (suc i) n
    → Cleared ip ip' i (suc n)
Cleared-next ip ip' i n c = record {
  zeroed = λ j lo hi. elim (ℕ_discrete i j) [
    | yes e ↦ c.kept j (inl (omega arith)) ∙ ground arith
    | no ne ↦ c.zeroed j (omega arith) (omega arith)
  ];
  kept = λ j h. c.kept j (omega arith) ∙ ground arith;
}

Cleared-skip :
    (ip ip' : Dinode) (i n : ℕ)
    → ip.addrs i ≡ 0
    → Cleared ip ip' (suc i) n
    → Cleared ip ip' i (suc n)
Cleared-skip ip ip' i n z c = record {
  zeroed = λ j lo hi. elim (ℕ_discrete i j) [
    | yes e ↦ c.kept j (inl (omega arith)) ∙ ground (arith, ap ip.addrs e)
    | no ne ↦ c.zeroed j (omega arith) (omega arith)
  ];
  kept = λ j h. c.kept j (omega arith);
}

pub free_direct-Frees :
    (n i : ℕ) (d : Dev) (ip : Dinode) (f : ℕ → ℕ)
    → FsOk d
    → ((j : ℕ) → i ≤ j → ip.addrs j ≡ f j)
    → Ready d f i n
    → (ip' : Dinode) × (d' : Dev) × (free_direct n i d ip ≡ returns (ip', d'))
      × Cleared ip ip' i n
      × Frees (In f i n) d d'
unfolding free_direct
free_direct-Frees zero i d ip f ok same r = (
  ip,
  d,
  refl,
  record { zeroed = λ j lo hi. absurd (omega arith); kept = λ j h. refl },
  Frees-refl d _ ok (λ k s. omega (arith, s.2, s.3)),
)
free_direct-Frees (suc n) i d ip f ok same r = elim (Bool-cases (ip.addrs i == 0)) [
  | inl z ↦
      let (ip', d', e, c, fr) =
        free_direct-Frees n (suc i) d ip f ok (λ j l. same j (omega arith))
          (Ready-skip d f i n r) in
      (
        ip',
        d',
        rw z e,
        Cleared-skip ip ip' i n (ground arith) c,
        Frees-skip d d' f i n (ground (arith, same i)) fr,
      )
  | inr n0 ↦
      let nz : ip.addrs i ≢ 0 = ground arith in
      let here = same i (omega arith) in
      let nzf : f i ≢ 0 = λ z. nz (here ∙ z) in
      let o : DataBlock d (f i) = r.each i (omega arith) (omega arith) nzf in
      let (d1, e1, f1) = bfree_succeeds d (f i) ok o nzf in
      let e1' : bfree d (ip.addrs i) ≡ returns d1 = ap (bfree d) here ∙ e1 in
      let ip1 : Dinode = record ip { addrs = update ip.addrs i 0 } in
      let (ip', d', e, c, fr) =
        free_direct-Frees n (suc i) d1 ip1 f f1.ok (λ j l. ground (arith, same j))
          (Ready-next d f i n d1 r f1) in
      (ip', d', rw (n0, e1') e, Cleared-next ip ip' i n c, Frees-both d d1 d' f i n nzf f1 fr)
]
