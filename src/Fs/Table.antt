-- ===== src/Fs/Table.antt =====
-- `bmap` of fs.c with an indirect block, and as a whole.
use dockv6_project.Base.{
  ℕ, ◌+◌, ◌-◌, ◌*◌, ◌^◌, ◌<◌, ◌≡◌, ◌≢◌, inl, inr, refl, arith, sym, ◌∙◌, subst, ℕ_discrete, update,
  ◌==◌, ltb, Bool-cases, true, false, dec_lt,
}
use dockv6_project.CString.{View, put_word}
use dockv6_project.Kalloc.Words.{word_back, word_kept}
use dockv6_project.Fs.{Dev, Result, panics, returns, bsize, logged_write, balloc}
use dockv6_project.Fs.Alloc.{Full, Balloc, balloc-Allocated, Allocated, Allocated-FsOk}
use dockv6_project.Fs.Inode.{
  Dinode, ndirect, nindirect, maxfile, entry, own_slot, indirect_slot, bmap,
}
use dockv6_project.Fs.Owned.{
  DataBlock, Owns, Grows, DataBlock-Grows, Owns-Grows, Grows-trans, Grows-refl, Allocated-Grows,
  used_ne, data_kept, write-Grows, fresh_nonzero, take_data, take_table,
}
use dockv6_project.Fs.Bmap.{addr_of, FileOk, Mapped, Mapped-old, Bmap, Owns-same, direct-Bmap}

-- The file has its indirect block: what `own_slot` of the entry NDIRECT gives.
record Tabled (d : Dev) (ip : Dinode) (t : ℕ) (ip' : Dinode) (d' : Dev) : Type 0 where
  slot : ip'.addrs ndirect ≡ t
  present : t ≢ 0
  same : (k : ℕ) → k < maxfile → addr_of d' ip' k ≡ addr_of d ip k
  kept : (c : ℕ) → DataBlock d c → d'.block c ≡ d.block c
  grows : Grows d d'
  ok : FileOk d' ip'
  same_size : ip'.size ≡ ip.size
  same_type : ip'.itype ≡ ip.itype
  old_slot : ip.addrs ndirect ≢ 0 → ip.addrs ndirect ≡ t
  fresh : ip.addrs ndirect ≡ 0 → (c : ℕ) → DataBlock d c → c ≢ t

abbrev TableOf : Dev → Dinode → Result (ℕ × Dinode × Dev) → Type 0
TableOf d ip (panics d') = Full d' × (ip.addrs ndirect ≡ 0)
TableOf d ip (returns r) = Tabled d ip r.0 r.1 r.2

word_zero : (v : View) (k : ℕ) → k < nindirect → ((i : ℕ) → i < bsize → v i ≡ 0) → entry v k ≡ 0
word_zero v k l z =
    let b0 = z (4 * k) (omega arith) in
    let b1 = z (4 * k + 1) (omega arith) in
    let b2 = z (4 * k + 2) (omega arith) in
    let b3 = z (4 * k + 3) (omega arith) in omega (arith, b0, b1, b2, b3)

table_new :
    (d : Dev) (ip : Dinode) (b : ℕ) (d' : Dev)
    → FileOk d ip
    → ip.addrs ndirect ≡ 0
    → Allocated d b d'
    → Tabled d ip b (record ip { addrs = update ip.addrs ndirect b }) d'
unfolding addr_of
table_new d ip b d' ok z a =
    let ip' : Dinode = record ip { addrs = update ip.addrs ndirect b } in
    let nonzero = fresh_nonzero d b d' ok.fs a in
    let shape : (k : ℕ) → k < maxfile → addr_of d' ip' k ≡ addr_of d ip k = λ k m.
      elim (dec_lt k ndirect) [
        | yes l ↦ ground arith
        | no n ↦ ground (arith, word_zero (d'.block b) (k - ndirect) (omega arith) a.zeroed)
      ] in
    let owns : Owns d (addr_of d ip) 0 = subst (λ t. Owns d (addr_of d ip) t) z ok.owns in
    let slot : ip'.addrs ndirect ≡ b = ground arith in
    record {
      slot = slot;
      present = nonzero;
      same = shape;
      kept = λ c o. data_kept d b d' c a o;
      grows = Allocated-Grows d b d' a;
      ok = record {
        fs = Allocated-FsOk d b d' a ok.fs;
        owns =
            subst (λ t. Owns d' (addr_of d' ip') t) (sym slot)
              (Owns-same d' _ _ _ shape (take_table d b d' (addr_of d ip) ok.fs a owns));
      };
      same_size = refl;
      same_type = refl;
      old_slot = λ n. absurd (n z);
      fresh = λ _ c o. used_ne d b d' c a o.in_use;
    }

own_slot-TableOf : (d : Dev) (ip : Dinode) → FileOk d ip → TableOf d ip (own_slot d ip ndirect)
unfolding own_slot
own_slot-TableOf d ip ok = elim (Bool-cases (ip.addrs ndirect == 0)) [
  | inl z ↦ rw z (go (balloc d) (balloc-Allocated d ok.fs.reserved) (ground arith))
  | inr n ↦ rw n (record {
    slot = refl;
    present = ground arith;
    same = λ k l. refl;
    kept = λ c o. refl;
    grows = Grows-refl d;
    ok = ok;
    same_size = refl;
    same_type = refl;
    old_slot = λ _. refl;
    fresh = λ z. absurd (ground arith);
  })
]
  where
    go :
        (r : Result (ℕ × Dev))
        → Balloc d r
        → ip.addrs ndirect ≡ 0
        → TableOf d ip (elim r [
          | panics d' ↦ panics d'
          | returns r ↦ returns (r.0, record ip { addrs = update ip.addrs ndirect r.0 }, r.1)
        ])
    go (panics d') b z = rw b.0 (b.1, z)
    go (returns r) a z = table_new d ip r.0 r.1 ok z a

-- A new entry `k` of the indirect block.
entry_new :
    (d : Dev) (ip : Dinode) (k b : ℕ) (d' : Dev)
    → FileOk d ip
    → ip.addrs ndirect ≢ 0
    → k < nindirect
    → addr_of d ip (k + ndirect) ≡ 0
    → Allocated d b d'
    → Mapped d ip
        (k + ndirect)
        b
        ip
        (logged_write d' (ip.addrs ndirect) (put_word (d'.block (ip.addrs ndirect)) (4 * k) b))
unfolding addr_of
entry_new d ip k b d' ok n l z a =
    let t = ip.addrs ndirect in
    let v = put_word (d'.block t) (4 * k) b in
    let d3 = logged_write d' t v in
    let o = ok.owns.table n in
    let table : d'.block t ≡ d.block t = data_kept d b d' _ a o in
    let g = Allocated-Grows d b d' a in
    let w = write-Grows d' t v (DataBlock-Grows d d' t g o) in
    let small : b < 2 ^ 32 = omega (arith, a.in_range, ok.fs.small) in
    let ne : t ≢ b = used_ne d b d' t a o.in_use in
    let shape : (j : ℕ) → j < maxfile → addr_of d3 ip j ≡ update (addr_of d ip) (k + ndirect) b j =
      λ j m. elim (dec_lt j ndirect) [
        | yes lo ↦ ground arith
        | no hi ↦ elim (ℕ_discrete (j - ndirect) k) [
          | yes e ↦ ground (arith, e, word_back (d'.block t) (4 * k) b small)
          | no ne ↦
              ground
                (arith, table, word_kept (d'.block t) (4 * (j - ndirect)) (4 * k) b (omega arith))
        ]
      ] in
    let owns =
      Owns-Grows d' d3 _ _ w (take_data d b d' (addr_of d ip) t (k + ndirect) ok.fs a ok.owns) in
    record {
      nonzero = fresh_nonzero d b d' ok.fs a;
      here = shape (k + ndirect) (omega arith) ∙ ground arith;
      old = λ n. absurd (n z);
      blank = λ _ i li. ground (arith, a.zeroed i li);
      others = λ j m nj. shape j m ∙ ground arith;
      kept = λ c oc nc. ground (arith, data_kept d b d' c a oc);
      fresh = λ _ c oc. used_ne d b d' c a oc.in_use;
      table = λ c oc nc. nc;
      grows = Grows-trans d d' d3 g w;
      ok = record {
        fs = w.ok (Allocated-FsOk d b d' a ok.fs);
        owns = Owns-same d3 _ _ _ shape owns;
      };
      same_size = refl;
      same_type = refl;
    }

indirect-Bmap :
    (d : Dev) (ip : Dinode) (k : ℕ)
    → FileOk d ip
    → ip.addrs ndirect ≢ 0
    → k < nindirect
    → Bmap d ip (k + ndirect) (indirect_slot d ip (ip.addrs ndirect) k)
unfolding indirect_slot addr_of
indirect-Bmap d ip k ok n l =
    let t = ip.addrs ndirect in
    let same : addr_of d ip (k + ndirect) ≡ entry (d.block t) k = ground arith in
    elim (Bool-cases (entry (d.block t) k == 0)) [
      | inl z ↦ rw z (go (balloc d) (balloc-Allocated d ok.fs.reserved) (same ∙ ground arith))
      | inr nz ↦ rw nz (
          subst (λ a. Mapped d ip (k + ndirect) a ip d) same
            (Mapped-old d ip (k + ndirect) ok (λ e. ground (arith, sym same ∙ e))))
    ]
  where
    go :
        (r : Result (ℕ × Dev))
        → Balloc d r
        → addr_of d ip (k + ndirect) ≡ 0
        → Bmap d ip (k + ndirect) (elim r [
          | panics d' ↦ panics d'
          | returns r ↦ returns (
            r.0,
            ip,
            logged_write r.1
                (ip.addrs ndirect)
                (put_word (r.1.block (ip.addrs ndirect)) (4 * k) r.0),
          )
        ])
    go (panics d') b z = rw b.0 (b.1, z)
    go (returns r) a z = entry_new d ip k r.0 r.1 ok n l z a

Tabled-Mapped :
    (d : Dev) (ip : Dinode) (t : ℕ) (ip1 : Dinode) (d1 : Dev) (bn : ℕ)
    (r : Result (ℕ × Dinode × Dev))
    → bn < maxfile
    → Tabled d ip t ip1 d1
    → Bmap d1 ip1 bn r
    → Bmap d ip bn r
Tabled-Mapped d ip t ip1 d1 bn (panics d') l s f = (f.0, sym (s.same bn l) ∙ f.1)
Tabled-Mapped d ip t ip1 d1 bn (returns r) l s m = record {
  nonzero = m.nonzero;
  here = m.here;
  old = λ n. m.old (λ z. n (sym (s.same bn l) ∙ z)) ∙ s.same bn l;
  blank = λ z. m.blank (s.same bn l ∙ z);
  others = λ k lk n. m.others k lk n ∙ s.same k lk;
  kept = λ c o n.
      m.kept c (DataBlock-Grows d d1 c s.grows o) (rw s.slot (not_table c o n)) ∙ s.kept c o;
  fresh = λ z c o. m.fresh (s.same bn l ∙ z) c (DataBlock-Grows d d1 c s.grows o);
  table = λ c o n. m.table c (DataBlock-Grows d d1 c s.grows o) (rw s.slot (not_table c o n));
  grows = Grows-trans d d1 r.2 s.grows m.grows;
  ok = m.ok;
  same_size = m.same_size ∙ s.same_size;
  same_type = m.same_type ∙ s.same_type;
}
  where
    not_table : (c : ℕ) → DataBlock d c → c ≢ ip.addrs ndirect → c ≢ t
    not_table c o n = elim (ℕ_discrete (ip.addrs ndirect) 0) [
      | yes z ↦ s.fresh z c o
      | no nz ↦ λ e. n (e ∙ sym (s.old_slot nz))
    ]

untabled :
    (d : Dev) (ip : Dinode) (bn : ℕ)
    → ltb bn ndirect ≡ false
    → ip.addrs ndirect ≡ 0
    → addr_of d ip bn ≡ 0
unfolding addr_of
untabled d ip bn h z = rw (h, z) refl

-- `bmap` gives each block of a file below MAXFILE an address that is not 0: the one it has, or else a
-- blank block that was free. No other block of the file gets another address, no block of another
-- file changes, and no block belongs to two places afterwards. It panics only when this block is
-- missing in the file and every block of the disk is in use. The file's blocks are in use and lie apart.
pub bmap-Mapped :
    (d : Dev) (ip : Dinode) (bn : ℕ) → FileOk d ip → bn < maxfile → Bmap d ip bn (bmap d ip bn)
unfolding bmap
bmap-Mapped d ip bn ok l = elim (Bool-cases (ltb bn ndirect)) [
  | inl lo ↦ rw lo (direct-Bmap d ip bn ok (ground arith))
  | inr hi ↦
      let in_table : ltb (bn - ndirect) nindirect ≡ true = ground arith in
      rw (hi, in_table) (go (own_slot d ip ndirect) (own_slot-TableOf d ip ok) (ground arith) hi)
]
  where
    go :
        (r : Result (ℕ × Dinode × Dev))
        → TableOf d ip r
        → bn - ndirect + ndirect ≡ bn
        → ltb bn ndirect ≡ false
        → Bmap d ip bn (elim r [
          | panics d' ↦ panics d'
          | returns r ↦ indirect_slot r.2 r.1 r.0 (bn - ndirect)
        ])
    go (panics d') f e hi = (f.0, untabled d ip bn hi f.1)
    go (returns r) s e hi =
        let m =
          indirect-Bmap r.2 r.1 (bn - ndirect) s.ok (λ z. s.present (sym s.slot ∙ z))
            (omega arith) in
        Tabled-Mapped d ip r.0 r.1 r.2 bn _ l s (
          subst (λ a. Bmap r.2 r.1 bn (indirect_slot r.2 r.1 a (bn - ndirect))) s.slot
            (subst (λ j. Bmap r.2 r.1 j (indirect_slot r.2 r.1 (r.1.addrs ndirect) (bn - ndirect)))
              e m))
