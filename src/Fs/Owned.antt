-- ===== src/Fs/Owned.antt =====
-- The blocks that belong to a file of fs.c, and what the changes of the disk do to them.
use dockv6_project.Base.{ℕ, ◌<◌, ◌≡◌, ◌≢◌, refl, arith, sym, ◌∙◌, subst, ℕ_discrete, update}
use dockv6_project.CString.{View}
use dockv6_project.Fs.{Dev, bblock, logged_write}
use dockv6_project.Fs.Alloc.{used, FsOk, Allocated, Allocated-FsOk, readsb-block}
use dockv6_project.Fs.Inode.{maxfile}

-- A block in use that is neither the super block nor one of the free map.
pub record DataBlock (d : Dev) (c : ℕ) : Type 0 where
  pub below : c < d.sb.size
  pub in_use : used d c ≢ 0
  pub no_sb : c ≢ 1
  pub no_map : (k : ℕ) → k < d.sb.size → bblock d.sb k ≢ c

-- A file whose blocks are `f 0`, `f 1`, … (0 where there is none) and whose indirect block is `t`.
pub record Owns (d : Dev) (f : ℕ → ℕ) (t : ℕ) : Type 0 where
  pub blocks : (k : ℕ) → k < maxfile → f k ≢ 0 → DataBlock d (f k)
  pub table : t ≢ 0 → DataBlock d t
  pub apart : (k : ℕ) → k < maxfile → f k ≢ 0 → f k ≢ t
  pub distinct : (j k : ℕ) → j < maxfile → k < maxfile → f j ≢ 0 → f j ≡ f k → j ≡ k

-- The disk keeps what it holds: the blocks in use stay in use.
pub record Grows (d d' : Dev) : Type 0 where
  pub same_sb : d'.sb ≡ d.sb
  pub in_use : (k : ℕ) → k < d.sb.size → used d k ≢ 0 → used d' k ≢ 0
  pub ok : FsOk d → FsOk d'

pub DataBlock-Grows : (d d' : Dev) (c : ℕ) → Grows d d' → DataBlock d c → DataBlock d' c
DataBlock-Grows d d' c g b = record {
  below = rw g.same_sb b.below;
  in_use = g.in_use c b.below b.in_use;
  no_sb = b.no_sb;
  no_map = rw g.same_sb b.no_map;
}

pub Owns-Grows : (d d' : Dev) (f : ℕ → ℕ) (t : ℕ) → Grows d d' → Owns d f t → Owns d' f t
Owns-Grows d d' f t g o = record {
  blocks = λ k l n. DataBlock-Grows d d' (f k) g (o.blocks k l n);
  table = λ n. DataBlock-Grows d d' t g (o.table n);
  apart = o.apart;
  distinct = o.distinct;
}

pub Grows-trans : (d d' d'' : Dev) → Grows d d' → Grows d' d'' → Grows d d''
Grows-trans d d' d'' g h = record {
  same_sb = h.same_sb ∙ g.same_sb;
  in_use = λ k l u. h.in_use k (rw g.same_sb l) (g.in_use k l u);
  ok = λ o. h.ok (g.ok o);
}

pub Grows-refl : (d : Dev) → Grows d d
Grows-refl d = record { same_sb = refl; in_use = λ k l u. u; ok = λ o. o }

pub Allocated-Grows : (d : Dev) (b : ℕ) (d' : Dev) → Allocated d b d' → Grows d d'
Allocated-Grows d b d' a = record {
  same_sb = a.same_sb;
  in_use = λ k l u. elim (ℕ_discrete k b) [
    | yes e ↦ absurd (u (subst (λ j. used d j ≡ 0) (sym e) a.was_free))
    | no n ↦ λ z. u (sym (a.others k l n) ∙ z)
  ];
  ok = Allocated-FsOk d b d' a;
}

-- A block in use is not the one that `balloc` picks.
pub used_ne : (d : Dev) (b : ℕ) (d' : Dev) (c : ℕ) → Allocated d b d' → used d c ≢ 0 → c ≢ b
used_ne d b d' c a u e = u (subst (λ j. used d j ≡ 0) (sym e) a.was_free)

pub data_kept :
    (d : Dev) (b : ℕ) (d' : Dev) (c : ℕ) → Allocated d b d' → DataBlock d c → d'.block c ≡ d.block c
data_kept d b d' c a o =
    a.contents c (used_ne d b d' c a o.in_use) (λ e. o.no_map b a.in_range (sym e))

update_at : (f : ℕ → ℕ) (k b j : ℕ) → k ≡ j → update f k b j ≡ b
update_at f k b j e = ground arith

update_off : (f : ℕ → ℕ) (k b j : ℕ) → k ≢ j → update f k b j ≡ f j
update_off f k b j n = ground arith

-- The block that `balloc` returns is a data block from then on.
pub Allocated-DataBlock : (d : Dev) (b : ℕ) (d' : Dev) → FsOk d → Allocated d b d' → DataBlock d' b
Allocated-DataBlock d b d' ok a = record {
  below = rw a.same_sb a.in_range;
  in_use = λ z. omega (arith, a.now_used, z);
  no_sb = λ e. used_ne d b d' 1 a ok.sb_used (sym e);
  no_map = rw a.same_sb (λ k l. used_ne d b d' _ a (ok.reserved k l).1);
}

-- A write to a data block.
pub write_used :
    (d : Dev) (c : ℕ) (v : View) (k : ℕ)
    → DataBlock d c
    → k < d.sb.size
    → used (logged_write d c v) k ≡ used d k
unfolding used
write_used d c v k o l = ground (arith, o.no_map k l)

pub write-Grows : (d : Dev) (c : ℕ) (v : View) → DataBlock d c → Grows d (logged_write d c v)
write-Grows d c v o =
    let same : (k : ℕ) → k < d.sb.size → used (logged_write d c v) k ≡ used d k =
      λ k l. write_used d c v k o l in
    record {
      same_sb = refl;
      in_use = λ k l u z. u (sym (same k l) ∙ z);
      ok = λ ok. record {
        sb_read = readsb-block d (logged_write d c v) (ground (arith, o.no_sb)) ∙ ok.sb_read;
        reserved = λ k l.
            ((ok.reserved k l).0, λ z. (ok.reserved k l).1 (sym (same _ (ok.reserved k l).0) ∙ z));
        behind = ok.behind;
        two = ok.two;
        sb_used = λ z. ok.sb_used (sym (same 1 ok.two) ∙ z);
        boot_used = λ z. ok.boot_used (sym (same 0 (omega (arith, ok.two))) ∙ z);
        small = ok.small;
      };
    }

pub fresh_nonzero : (d : Dev) (b : ℕ) (d' : Dev) → FsOk d → Allocated d b d' → b ≢ 0
fresh_nonzero d b d' ok a e = used_ne d b d' 0 a ok.boot_used (sym e)

-- The file takes the new block as its block `k`, or as its table.
pub take_data :
    (d : Dev) (b : ℕ) (d' : Dev) (f : ℕ → ℕ) (t k : ℕ)
    → FsOk d
    → Allocated d b d'
    → Owns d f t
    → Owns d' (update f k b) t
take_data d b d' f t k ok a o =
    let fresh : (j : ℕ) → j < maxfile → f j ≢ 0 → f j ≢ b =
      λ j l n. used_ne d b d' (f j) a (o.blocks j l n).in_use in
    let o' = Owns-Grows d d' f t (Allocated-Grows d b d' a) o in
    let nonzero = fresh_nonzero d b d' ok a in
    record {
      blocks = λ j l. elim (ℕ_discrete k j) [
        | yes e ↦ rw (update_at f k b j e) (λ n. Allocated-DataBlock d b d' ok a)
        | no ne ↦ rw (update_off f k b j ne) (o'.blocks j l)
      ];
      table = o'.table;
      apart = λ j l. elim (ℕ_discrete k j) [
        | yes e ↦ rw (update_at f k b j e) (λ n. elim (ℕ_discrete t 0) [
          | yes z ↦ λ e'. nonzero (e' ∙ z)
          | no nz ↦ λ e'. used_ne d b d' t a (o.table nz).in_use (sym e')
        ])
        | no ne ↦ rw (update_off f k b j ne) (o.apart j l)
      ];
      distinct = λ j i l m. elim (ℕ_discrete k j) [
        | yes e ↦ elim (ℕ_discrete k i) [
          | yes e' ↦ λ n q. sym e ∙ e'
          | no ne' ↦
              rw (update_at f k b j e, update_off f k b i ne')
                (λ n q. absurd (elim (ℕ_discrete (f i) 0) [
                  | yes z ↦ nonzero (q ∙ z)
                  | no nz ↦ fresh i m nz (sym q)
                ]))
        ]
        | no ne ↦ elim (ℕ_discrete k i) [
          | yes e' ↦
              rw (update_off f k b j ne, update_at f k b i e') (λ n q. absurd (fresh j l n q))
          | no ne' ↦ rw (update_off f k b j ne, update_off f k b i ne') (o.distinct j i l m)
        ]
      ];
    }

pub take_table :
    (d : Dev) (b : ℕ) (d' : Dev) (f : ℕ → ℕ) → FsOk d → Allocated d b d' → Owns d f 0 → Owns d' f b
take_table d b d' f ok a o =
    let o' = Owns-Grows d d' f 0 (Allocated-Grows d b d' a) o in
    record {
      blocks = o'.blocks;
      table = λ n. Allocated-DataBlock d b d' ok a;
      apart = λ j l n. used_ne d b d' (f j) a (o.blocks j l n).in_use;
      distinct = o.distinct;
    }
