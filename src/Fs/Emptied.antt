-- ===== src/Fs/Emptied.antt =====
-- `itrunc` of fs.c as a whole.
use dockv6_project.Base.{
  ℕ, ◌+◌, ◌-◌, ◌≤◌, ◌<◌, ◌≡◌, ◌≢◌, ◌⊎◌, inl, inr, refl, arith, sym, ap, ◌∙◌, subst, ℕ_discrete,
  update, ◌==◌, true, false, dec_lt,
}
use dockv6_project.CString.{View}
use dockv6_project.Fs.{Dev, returns, logged_write, bfree}
use dockv6_project.Fs.Alloc.{used, FsOk}
use dockv6_project.Fs.Inode.{
  Dinode, ndirect, nindirect, maxfile, entry, free_direct, free_entries, free_indirect,
  behind_direct, emptied, itrunc, iupdate, iblock, write_dinode, inode_at,
}
use dockv6_project.Fs.Owned.{DataBlock, DataBlock-Grows, write-Grows, write_used}
use dockv6_project.Fs.Bmap.{addr_of, FileOk}
use dockv6_project.Fs.Content.{Foreign}
use dockv6_project.Fs.Truncate.{
  Frees, Frees-refl, Frees-trans, Frees-DataBlock, In, Ready, bfree_succeeds, free_entries-Frees,
  free_direct-Frees,
}

addr_direct : (d : Dev) (ip : Dinode) (k : ℕ) → k < ndirect → addr_of d ip k ≡ ip.addrs k
unfolding addr_of
addr_direct d ip k l = ground arith

addr_indirect :
    (d : Dev) (ip : Dinode) (k : ℕ)
    → ip.addrs ndirect ≢ 0
    → addr_of d ip (k + ndirect) ≡ entry (d.block (ip.addrs ndirect)) k
unfolding addr_of
addr_indirect d ip k n = ground arith

direct-Ready : (d : Dev) (ip : Dinode) → FileOk d ip → Ready d ip.addrs 0 ndirect
direct-Ready d ip ok = record {
  each = λ j lo hi nz.
      let e = addr_direct d ip j (omega arith) in
      subst (DataBlock d) e (ok.owns.blocks j (omega arith) (λ z. nz (sym e ∙ z)));
  once = λ j k lo l hi nz q.
      let ej = addr_direct d ip j (omega arith) in
      let ek = addr_direct d ip k (omega arith) in
      let same =
        ok.owns.distinct k j (omega arith) (omega arith) (λ z. nz (sym ek ∙ z)) (ek ∙ q ∙ sym ej) in
      omega (arith, same);
}

-- The steps of `free_indirect` where there is an indirect block, and where there is none.
free_indirect_steps :
    (n : ℕ) (d : Dev) (ip : Dinode) (d1 d2 : Dev)
    → ip.addrs ndirect ≢ 0
    → free_entries n 0 d (d.block (ip.addrs ndirect)) ≡ returns d1
    → bfree d1 (ip.addrs ndirect) ≡ returns d2
    → free_indirect n d ip ≡ returns (record ip { addrs = update ip.addrs ndirect 0 }, d2)
unfolding free_indirect
free_indirect_steps n d ip d1 d2 nz e e' =
    let some_table : (ip.addrs ndirect == 0) ≡ false = ground (arith, nz) in
    rw (some_table, e, e') refl

free_indirect_none :
    (n : ℕ) (d : Dev) (ip : Dinode) → ip.addrs ndirect ≡ 0 → free_indirect n d ip ≡ returns (ip, d)
unfolding free_indirect
free_indirect_none n d ip z =
    let no_table : (ip.addrs ndirect == 0) ≡ true = ground (arith, z) in rw no_table refl

cleared_slot : (f : ℕ → ℕ) → update f ndirect 0 ndirect ≡ 0
cleared_slot f = ground arith

other_slot : (f : ℕ → ℕ) (j : ℕ) → j < ndirect → update f ndirect 0 j ≡ f j
other_slot f j l = ground arith

module _ (d : Dev) (ip : Dinode) (ok : FileOk d ip) where
  abbrev Direct : ℕ → Type 0
  Direct = In ip.addrs 0 ndirect

  abbrev table_view : View
  table_view = d.block (ip.addrs ndirect)

  abbrev Indirect : ℕ → Type 0
  Indirect = In (entry table_view) 0 nindirect

  entry_at :
      (j : ℕ)
      → ip.addrs ndirect ≢ 0
      → j < nindirect
      → entry table_view j ≢ 0
      → DataBlock d (entry table_view j)
        × ((Direct (entry table_view j)) → ⊥)
        × entry table_view j ≢ ip.addrs ndirect
  entry_at j n l nz =
      let e = addr_indirect d ip j n in
      let there : addr_of d ip (j + ndirect) ≢ 0 = λ z. nz (sym e ∙ z) in
      (
        subst (DataBlock d) e (ok.owns.blocks (j + ndirect) (omega arith) there),
        (λ (nz', k, lo, hi, q).
            let same =
              ok.owns.distinct (j + ndirect) k (omega arith) (omega arith) there
                (e ∙ sym q ∙ sym (addr_direct d ip k (omega arith))) in
            omega (arith, same, hi)),
        (λ q. ok.owns.apart (j + ndirect) (omega arith) there (e ∙ q)),
      )

  indirect-Ready :
      (d1 : Dev)
      → Frees Direct d d1
      → ip.addrs ndirect ≢ 0
      → Ready d1 (entry table_view) 0 nindirect
  indirect-Ready d1 fr n = record {
    each = λ j lo hi nz.
        let (o, out, apart) = entry_at j n hi nz in Frees-DataBlock Direct d d1 _ fr o out;
    once = λ j k lo l hi nz q.
        let ej = addr_indirect d ip j n in
        let ek = addr_indirect d ip k n in
        let same =
          ok.owns.distinct (k + ndirect) (j + ndirect) (omega arith) (omega arith)
            (λ z. nz (sym ek ∙ z)) (ek ∙ q ∙ sym ej) in
        omega (arith, same);
  }

  table_out-Direct : ip.addrs ndirect ≢ 0 → (Direct (ip.addrs ndirect)) → ⊥
  table_out-Direct n (nz, k, lo, hi, q) =
      let e = addr_direct d ip k (omega arith) in
      ok.owns.apart k (omega arith) (λ z. nz (sym q ∙ sym e ∙ z)) (e ∙ q)

  table_out-Indirect : ip.addrs ndirect ≢ 0 → (Indirect (ip.addrs ndirect)) → ⊥
  table_out-Indirect n (nz, j, lo, hi, q) = (entry_at j n hi (λ z. nz (sym q ∙ z))).2 q

  -- The blocks that the second part of `itrunc` frees.
  abbrev Behind : ℕ → Type 0
  Behind c = (ip.addrs ndirect ≢ 0) × ((Indirect c) ⊎ (c ≡ ip.addrs ndirect))

  free_indirect-Frees :
      (ip1 : Dinode) (d1 : Dev)
      → ip1.addrs ndirect ≡ ip.addrs ndirect
      → Frees Direct d d1
      → (ip2 : Dinode) × (d2 : Dev) × (free_indirect nindirect d1 ip1 ≡ returns (ip2, d2))
        × (ip2.addrs ndirect ≡ 0)
        × ((j : ℕ) → j < ndirect → ip2.addrs j ≡ ip1.addrs j)
        × Frees Behind d1 d2
  free_indirect-Frees ip1 d1 same fr = elim (ℕ_discrete (ip1.addrs ndirect) 0) [
    | yes z0 ↦ (
      ip1,
      d1,
      free_indirect_none nindirect d1 ip1 z0,
      z0,
      (λ j l. refl),
      Frees-refl d1 Behind fr.ok (λ k s. s.0 (sym same ∙ z0)),
    )
    | no n1 ↦
        let n : ip.addrs ndirect ≢ 0 = λ z. n1 (same ∙ z) in
        let t = ip.addrs ndirect in
        let o1 : DataBlock d1 t =
          Frees-DataBlock Direct d d1 t fr (ok.owns.table n) (table_out-Direct n) in
        let view : d1.block (ip1.addrs ndirect) ≡ table_view =
          ap d1.block same ∙ fr.contents t (ok.owns.table n).no_map in
        let (d2, e2, f2) =
          free_entries-Frees nindirect 0 d1 table_view fr.ok (indirect-Ready d1 fr n) in
        let e2' : free_entries nindirect 0 d1 (d1.block (ip1.addrs ndirect)) ≡ returns d2 =
          ap (free_entries nindirect 0 d1) view ∙ e2 in
        let o2 : DataBlock d2 t = Frees-DataBlock Indirect d1 d2 t f2 o1 (table_out-Indirect n) in
        let (d3, e3, f3) = bfree_succeeds d2 t f2.ok o2 n in
        let e3' : bfree d2 (ip1.addrs ndirect) ≡ returns d3 = ap (bfree d2) same ∙ e3 in
        (
          record ip1 { addrs = update ip1.addrs ndirect 0 },
          d3,
          free_indirect_steps nindirect d1 ip1 d2 d3 n1 e2' e3',
          cleared_slot ip1.addrs,
          (λ j l. other_slot ip1.addrs j l),
          Frees-trans Indirect (λ k. k ≡ t) Behind d1 d2 d3 f2 f3 (λ k u. u.1) (λ k s. (n, inl s))
              (λ k e. (n, inr e)),
        )
  ]

-- What `itrunc` does to a file and its disk.
pub record Emptied (d : Dev) (inum : ℕ) (ip : Dinode) (ip' : Dinode) (d' : Dev) : Type 0 where
  pub size : ip'.size ≡ 0
  pub same_sb : d'.sb ≡ d.sb
  pub addrs : (i : ℕ) → i < ndirect + 1 → ip'.addrs i ≡ 0
  pub data_freed : (k : ℕ) → k < maxfile → addr_of d ip k ≢ 0 → used d' (addr_of d ip k) ≡ 0
  pub table_freed : ip.addrs ndirect ≢ 0 → used d' (ip.addrs ndirect) ≡ 0
  pub others : (c : ℕ) → Foreign d ip c → DataBlock d' c
  pub contents : (c : ℕ) → Foreign d ip c → c ≢ iblock d.sb inum → d'.block c ≡ d.block c
  pub fs : FsOk d'

Foreign-stays :
    (d : Dev) (ip : Dinode) (ok : FileOk d ip) (c : ℕ)
    → Foreign d ip c
    → ((Direct d ip ok c) ⊎ (Behind d ip ok c))
    → ⊥
Foreign-stays d ip ok c f (inl (nz, k, lo, hi, q)) =
    f.no_data k (omega arith) (addr_direct d ip k (omega arith) ∙ q)
Foreign-stays d ip ok c f (inr (n, inl (nz, k, lo, hi, q))) =
    f.no_data (k + ndirect) (omega arith) (addr_indirect d ip k n ∙ q)
Foreign-stays d ip ok c f (inr (n, inr e)) = f.no_table e

-- The steps of `itrunc`.
itrunc_steps :
    (d : Dev) (inum : ℕ) (ip ip1 ip2 : Dinode) (d1 d2 : Dev)
    → free_direct ndirect 0 d ip ≡ returns (ip1, d1)
    → free_indirect nindirect d1 ip1 ≡ returns (ip2, d2)
    → itrunc d inum ip
      ≡ returns (record ip2 { size = 0 }, iupdate d2 inum (record ip2 { size = 0 }))
unfolding itrunc behind_direct emptied
itrunc_steps d inum ip ip1 ip2 d1 d2 e e' = ap (emptied inum) (ap behind_direct e ∙ e')

no_table : (d : Dev) (ip : Dinode) (k : ℕ) → ip.addrs ndirect ≡ 0 → ndirect ≤ k → addr_of d ip k ≡ 0
unfolding addr_of
no_table d ip k z l = ground (arith, z)

-- Each block of the file is freed by one of the two parts.
gone :
    (d : Dev) (ip : Dinode) (ok : FileOk d ip) (k : ℕ)
    → k < maxfile
    → addr_of d ip k ≢ 0
    → (Direct d ip ok (addr_of d ip k)) ⊎ (Behind d ip ok (addr_of d ip k))
gone d ip ok k l nz = elim (dec_lt k ndirect) [
  | yes lo ↦ inl (nz, k, omega arith, omega arith, sym (addr_direct d ip k lo))
  | no hi ↦
      let n : ip.addrs ndirect ≢ 0 = λ z. nz (no_table d ip k z (omega arith)) in
      let back : k - ndirect + ndirect ≡ k = omega arith in
      let e = addr_indirect d ip (k - ndirect) n in
      inr (n, inl (nz, k - ndirect, omega arith, omega arith, sym e ∙ ap (addr_of d ip) back))
]

write_off : (d : Dev) (b : ℕ) (v : View) (c : ℕ) → b ≢ c → (logged_write d b v).block c ≡ d.block c
write_off d b v c n = ground arith

-- `itrunc` never panics: it frees each block of the file, its indirect block too, leaves every other
-- block in use and unchanged but that of the inode, and empties the inode. The file's blocks are in
-- use and lie apart, and the inode lies in a block of its own.
pub itrunc-Emptied :
    (d : Dev) (inum : ℕ) (ip : Dinode)
    → FileOk d ip
    → Foreign d ip (iblock d.sb inum)
    → (ip' : Dinode) × (d' : Dev) × (itrunc d inum ip ≡ returns (ip', d'))
      × Emptied d inum ip ip' d'
unfolding iupdate
itrunc-Emptied d inum ip ok node =
    let (ip1, d1, e1, c1, f1) =
      free_direct-Frees ndirect 0 d ip ip.addrs ok.fs (λ j l. refl) (direct-Ready d ip ok) in
    let (ip2, d2, e2, z2, k2, f2) =
      free_indirect-Frees d ip ok ip1 d1 (c1.kept ndirect (inr (omega arith))) f1 in
    let all =
      Frees-trans (Direct d ip ok) (Behind d ip ok) (λ c. (Direct d ip ok c) ⊎ (Behind d ip ok c)) d
        d1 d2 f1 f2 (λ k u. u) (λ k s. inl s) (λ k s. inr s) in
    let stays = Foreign-stays d ip ok in
    let data_block : (c : ℕ) → Foreign d ip c → DataBlock d2 c =
      λ c f. Frees-DataBlock _ d d2 c all f.block (stays c f) in
    let ip3 : Dinode = record ip2 { size = 0 } in
    let d3 = iupdate d2 inum ip3 in
    let place : iblock d2.sb inum ≡ iblock d.sb inum = rw all.same_sb refl in
    let home : DataBlock d2 (iblock d2.sb inum) =
      subst (DataBlock d2) (sym place) (data_block _ node) in
    let w =
      write-Grows d2 (iblock d2.sb inum)
        (write_dinode (d2.block (iblock d2.sb inum)) (inode_at inum) ip3) home in
    let bit : (k : ℕ) → k < d.sb.size → used d3 k ≡ used d2 k =
      λ k l. write_used d2 _ _ k home (rw all.same_sb l) in
    (
      ip3,
      d3,
      itrunc_steps d inum ip ip1 ip2 d1 d2 e1 e2,
      record {
        size = refl;
        same_sb = all.same_sb;
        addrs = λ i l. elim (ℕ_discrete i ndirect) [
          | yes e ↦ ap ip2.addrs e ∙ z2
          | no n ↦ k2 i (omega arith) ∙ c1.zeroed i (omega arith) (omega arith)
        ];
        data_freed = λ k l nz.
            let o = ok.owns.blocks k l nz in
            bit _ o.below ∙ all.freed _ o.below (gone d ip ok k l nz);
        table_freed = λ n.
            bit _ (ok.owns.table n).below ∙ all.freed _ (ok.owns.table n).below (inr (n, inr refl));
        others = λ c f. DataBlock-Grows d2 d3 c w (data_block c f);
        contents =
            λ c f n. write_off d2 _ _ c (λ e. n (sym e ∙ place)) ∙ all.contents c f.block.no_map;
        fs = w.ok all.ok;
      },
    )
