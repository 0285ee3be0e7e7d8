-- ===== src/Fs/References.antt =====
-- The entries of the inode cache of fs.c: each inode has at most one, which `iget` finds or makes.
use dockv6_project.Base.{
  ℕ, zero, suc, ◌+◌, ◌-◌, ◌^◌, ◌≤◌, ◌<◌, ◌≡◌, ◌≢◌, ◌⊎◌, inl, inr, refl, arith, sym, ap, ◌∙◌, subst,
  ◌==◌, if◌then◌else◌, ◌&&◌, true, false, Bool-cases, ℕ_discrete, Option, none, some, is_null,
  update,
}
use dockv6_project.Fs.Icache.{
  Inode, Cache, ninode, Run, stops, waits, ends, referenced, is_for, Scan, cached, free_slot,
  iget_scan, set_inode, ref_up, recycled, iget,
}

-- No two entries in use are for one inode.
abbrev pub Unique : (ℕ → Inode) → Type 0
Unique inode =
    (i j : ℕ)
    → i < ninode
    → j < ninode
    → referenced (inode i) ≡ true
    → referenced (inode j) ≡ true
    → (inode i).dev ≡ (inode j).dev
    → (inode i).inum ≡ (inode j).inum
    → i ≡ j

-- What an entry in use is for stays, and none comes into use.
record Fewer (inode inode' : ℕ → Inode) (j : ℕ) : Type 0 where
  used_before : referenced (inode j) ≡ true
  same_dev : (inode' j).dev ≡ (inode j).dev
  same_inum : (inode' j).inum ≡ (inode j).inum

Unique-Fewer :
    (inode inode' : ℕ → Inode)
    → ((j : ℕ) → j < ninode → referenced (inode' j) ≡ true → Fewer inode inode' j)
    → Unique inode
    → Unique inode'
Unique-Fewer inode inode' h u i j li lj ri rj e e' =
    let a = h i li ri in
    let b = h j lj rj in
    u i j li lj a.used_before b.used_before (sym a.same_dev ∙ e ∙ b.same_dev)
      (sym a.same_inum ∙ e' ∙ b.same_inum)

-- A change of one entry that was in use, or is no more.
one_Fewer :
    (inode : ℕ → Inode) (i : ℕ) (ip : Inode)
    → (referenced ip ≡ true → referenced (inode i) ≡ true)
    → ip.dev ≡ (inode i).dev
    → ip.inum ≡ (inode i).inum
    → (j : ℕ) → referenced (update inode i ip j) ≡ true
    → Fewer inode (update inode i ip) j
one_Fewer inode i ip r d n j h = elim (ℕ_discrete i j) [
  | yes e ↦
      let at : update inode i ip j ≡ ip = ground (arith, e) in
      let back : inode i ≡ inode j = ap inode e in
      record {
        used_before =
            subst (λ q. referenced q ≡ true) back (r (subst (λ q. referenced q ≡ true) at h));
        same_dev = ap (λ q. q.dev) at ∙ d ∙ ap (λ q. q.dev) back;
        same_inum = ap (λ q. q.inum) at ∙ n ∙ ap (λ q. q.inum) back;
      }
  | no ne ↦
      let off : update inode i ip j ≡ inode j = ground (arith, ne) in
      record {
        used_before = subst (λ q. referenced q ≡ true) off h;
        same_dev = ap (λ q. q.dev) off;
        same_inum = ap (λ q. q.inum) off;
      }
]

-- The reference counts are far from overflowing.
abbrev pub CountsFit : (ℕ → Inode) → Type 0
CountsFit inode = (i : ℕ) → (inode i).ref < 2 ^ 31 - 1

-- What the scan finds.
abbrev ScanOk : ℕ → ℕ → (ℕ → Inode) → ℕ → ℕ → Option ℕ → Scan → Type 0
ScanOk n i inode dev inum empty (cached j) =
    (i ≤ j) × (j < i + n) × (is_for dev inum (inode j) ≡ true)
ScanOk n i inode dev inum empty (free_slot none) =
    ((k : ℕ) → i ≤ k → k < i + n → is_for dev inum (inode k) ≡ false)
    × (empty ≡ none)
    × ((k : ℕ) → i ≤ k → k < i + n → (inode k).ref ≢ 0)
ScanOk n i inode dev inum empty (free_slot (some j)) =
    ((k : ℕ) → i ≤ k → k < i + n → is_for dev inum (inode k) ≡ false)
    × ((empty ≡ some j) ⊎ ((i ≤ j) × (j < i + n) × ((inode j).ref ≡ 0)))

-- `if (empty == 0 && ip->ref == 0) empty = ip;`
next_empty-none :
    (empty : Option ℕ) (i r : ℕ)
    → (if is_null empty && (r == 0) then some i else empty) ≡ none
    → (empty ≡ none) × (r ≢ 0)
next_empty-none none i r e = (refl, λ z. ground (arith, e, z))
next_empty-none (some j) i r e = ground (arith, e)

next_empty-some :
    (empty : Option ℕ) (i r j : ℕ)
    → (if is_null empty && (r == 0) then some i else empty) ≡ some j
    → (empty ≡ some j) ⊎ ((i ≡ j) × (r ≡ 0))
next_empty-some none i r j e = ground (arith, e)
next_empty-some (some k) i r j e = inl e

-- What holds of entry `i` and of those behind it.
from_here :
    (P : ℕ → Type 0) (i n : ℕ)
    → P i
    → ((k : ℕ) → suc i ≤ k → k < suc i + n → P k)
    → (k : ℕ) → i ≤ k
    → k < i + suc n
    → P k
from_here P i n here rest k lo hi = elim (ℕ_discrete i k) [
  | yes e ↦ subst P e here
  | no ne ↦ rest k (omega arith) (omega arith)
]

scan_next :
    (n i : ℕ) (inode : ℕ → Inode) (dev inum : ℕ) (empty : Option ℕ) (s : Scan)
    → is_for dev inum (inode i) ≡ false
    → ScanOk n
        (suc i)
        inode
        dev
        inum
        (if is_null empty && ((inode i).ref == 0) then some i else empty)
        s
    → ScanOk (suc n) i inode dev inum empty s
scan_next n i inode dev inum empty (cached j) miss o = (omega (arith, o.0), omega (arith, o.1), o.2)
scan_next n i inode dev inum empty (free_slot none) miss o =
    let (none_yet, here) = next_empty-none empty i (inode i).ref o.1 in
    (
      from_here (λ k. is_for dev inum (inode k) ≡ false) i n miss o.0,
      none_yet,
      from_here (λ k. (inode k).ref ≢ 0) i n here o.2,
    )
scan_next n i inode dev inum empty (free_slot (some j)) miss o = (
  from_here (λ k. is_for dev inum (inode k) ≡ false) i n miss o.0,
  elim o.1 [
    | inr (lo, hi, z) ↦ inr (omega arith, omega arith, z)
    | inl e ↦ elim (next_empty-some empty i (inode i).ref j e) [
      | inl old ↦ inl old
      | inr (here, z) ↦ inr (omega arith, omega arith, subst (λ k. (inode k).ref ≡ 0) here z)
    ]
  ],
)

iget_scan-ScanOk :
    (n i : ℕ) (inode : ℕ → Inode) (dev inum : ℕ) (empty : Option ℕ)
    → ScanOk n i inode dev inum empty (iget_scan n i inode dev inum empty)
unfolding iget_scan
iget_scan-ScanOk zero i inode dev inum none =
    ((λ k lo hi. absurd (omega arith)), refl, (λ k lo hi. absurd (omega arith)))
iget_scan-ScanOk zero i inode dev inum (some j) = ((λ k lo hi. absurd (omega arith)), inl refl)
iget_scan-ScanOk (suc n) i inode dev inum empty = elim (Bool-cases (is_for dev inum (inode i))) [
  | inl hit ↦ rw hit (omega arith, omega arith, hit)
  | inr miss ↦ rw miss (
      scan_next n i inode dev inum empty _ miss (
        iget_scan-ScanOk n (suc i) inode dev inum
          (if is_null empty && ((inode i).ref == 0) then some i else empty)))
]

-- What `iget` gives: one more reference to the entry of that inode, which is now the only one.
pub record Got (c : Cache) (dev inum i : ℕ) (c' : Cache) : Type 0 where
  pub inside : i < ninode
  pub right : ((c'.inode i).dev ≡ dev) × ((c'.inode i).inum ≡ inum)
  pub counted : (c'.inode i).ref ≡ (c.inode i).ref + 1
  pub others : (j : ℕ) → j ≢ i → c'.inode j ≡ c.inode j
  pub fresh : (c.inode i).ref ≡ 0 → (c'.inode i).valid ≡ false
  pub same_disk : c'.disk ≡ c.disk
  pub unique : Unique c'.inode

abbrev pub Iget : Cache → ℕ → ℕ → Run (ℕ × Cache) → Type 0
Iget c dev inum stops = (i : ℕ) → i < ninode → (c.inode i).ref ≢ 0
Iget c dev inum waits = ⊥
Iget c dev inum (ends r) = Got c dev inum r.0 r.1

is_for_parts :
    (dev inum : ℕ) (ip : Inode)
    → is_for dev inum ip ≡ true
    → (referenced ip ≡ true) × (ip.dev ≡ dev) × (ip.inum ≡ inum)
is_for_parts dev inum ip h = ground arith

hit-Got :
    (c : Cache) (dev inum i : ℕ)
    → Unique c.inode
    → CountsFit c.inode
    → i < ninode
    → is_for dev inum (c.inode i) ≡ true
    → Got c dev inum i (set_inode c i (ref_up (c.inode i)))
hit-Got c dev inum i u fit l h =
    let (r, d, n) = is_for_parts dev inum (c.inode i) h in
    record {
      inside = l;
      right = ground (arith, d, n);
      counted = ground (arith, fit i);
      others = λ j ne. ground arith;
      fresh = λ z. ground (arith, r, z);
      same_disk = refl;
      unique =
          Unique-Fewer _ _
            (λ j _ rj. one_Fewer c.inode i (ref_up (c.inode i)) (λ _. r) refl refl j rj) u;
    }

-- An entry for an inode that had none.
Unique-recycled :
    (inode : ℕ → Inode) (dev inum i : ℕ) (ip : Inode)
    → ip.dev ≡ dev
    → ip.inum ≡ inum
    → ((k : ℕ) → k < ninode → is_for dev inum (inode k) ≡ false)
    → Unique inode
    → Unique (update inode i ip)
Unique-recycled inode dev inum i ip d n clear u a b la lb ra rb e e' = elim (ℕ_discrete i a) [
  | yes ia ↦ elim (ℕ_discrete i b) [
    | yes ib ↦ sym ia ∙ ib
    | no nb ↦
        let at = at_index a ia in
        let off = off_index b nb in
        absurd (
          other b lb (subst (λ q. referenced q ≡ true) off rb)
            (sym (ap (λ q. q.dev) off) ∙ sym e ∙ ap (λ q. q.dev) at)
            (sym (ap (λ q. q.inum) off) ∙ sym e' ∙ ap (λ q. q.inum) at))
  ]
  | no na ↦ elim (ℕ_discrete i b) [
    | yes ib ↦
        let at = at_index b ib in
        let off = off_index a na in
        absurd (
          other a la (subst (λ q. referenced q ≡ true) off ra)
            (sym (ap (λ q. q.dev) off) ∙ e ∙ ap (λ q. q.dev) at)
            (sym (ap (λ q. q.inum) off) ∙ e' ∙ ap (λ q. q.inum) at))
    | no nb ↦
        let oa = off_index a na in
        let ob = off_index b nb in
        u a b la lb (subst (λ q. referenced q ≡ true) oa ra)
          (subst (λ q. referenced q ≡ true) ob rb)
          (sym (ap (λ q. q.dev) oa) ∙ e ∙ ap (λ q. q.dev) ob)
          (sym (ap (λ q. q.inum) oa) ∙ e' ∙ ap (λ q. q.inum) ob)
  ]
]
  where
    at_index : (j : ℕ) → i ≡ j → update inode i ip j ≡ ip
    at_index j e = ground (arith, e)

    off_index : (j : ℕ) → i ≢ j → update inode i ip j ≡ inode j
    off_index j e = ground (arith, e)

    other :
        (k : ℕ)
        → k < ninode
        → referenced (inode k) ≡ true
        → (inode k).dev ≡ ip.dev
        → (inode k).inum ≡ ip.inum
        → ⊥
    other k lk r q q' = let eq = q ∙ d in let eq' = q' ∙ n in ground (arith, clear k lk, r, eq, eq')

recycled-Got :
    (c : Cache) (dev inum i : ℕ)
    → Unique c.inode
    → i < ninode
    → (c.inode i).ref ≡ 0
    → ((k : ℕ) → k < ninode → is_for dev inum (c.inode k) ≡ false)
    → Got c dev inum i (set_inode c i (recycled (c.inode i) dev inum))
recycled-Got c dev inum i u l z clear = record {
  inside = l;
  right = ground arith;
  counted = ground (arith, z);
  others = λ j ne. ground arith;
  fresh = λ _. ground arith;
  same_disk = refl;
  unique = Unique-recycled c.inode dev inum i (recycled (c.inode i) dev inum) refl refl clear u;
}

-- `iget` keeps at most one entry in use for each inode: it counts one reference more to the entry
-- that the inode has, or else makes it one that is not yet valid. No other entry changes. It panics
-- only when every entry is referenced. The reference counts are below 2^31 - 1.
pub iget-Unique :
    (c : Cache) (dev inum : ℕ)
    → Unique c.inode
    → CountsFit c.inode
    → Iget c dev inum (iget c dev inum)
unfolding iget
iget-Unique c dev inum u fit =
    go (iget_scan ninode 0 c.inode dev inum none) (iget_scan-ScanOk ninode 0 c.inode dev inum none)
  where
    none_some : (j : ℕ) → (none ≡ some j) → ⊥
    none_some j e = ground (arith, e)

    go :
        (s : Scan)
        → ScanOk ninode 0 c.inode dev inum none s
        → Iget c dev inum (elim s [
          | cached i ↦ ends (i, set_inode c i (ref_up (c.inode i)))
          | free_slot none ↦ stops
          | free_slot (some i) ↦ ends (i, set_inode c i (recycled (c.inode i) dev inum))
        ])
    go (cached i) o = hit-Got c dev inum i u fit (omega (arith, o.1)) o.2
    go (free_slot none) o = λ i l. o.2 i (omega arith) (omega arith)
    go (free_slot (some i)) o = elim o.1 [
      | inl e ↦ absurd (none_some i e)
      | inr (lo, hi, z) ↦
          recycled-Got c dev inum i u (omega (arith, hi)) z
            (λ k lk. o.0 k (omega arith) (omega (arith, lk)))
    ]
