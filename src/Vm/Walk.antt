-- ===== src/Vm/Walk.antt =====
-- `walkpgdir` and `mappages` of vm.c, for one page: what is mapped is what `uva2ka` finds.
use dockv6_project.Base.{
  ℕ, suc, not, ◌&&◌, ◌+◌, ◌*◌, ◌%◌, ◌^◌, ◌≤◌, ◌<◌, ◌≡◌, ◌≢◌, ◌⊎◌, inl, inr, refl, arith, ap, ◌∙◌,
  ◌==◌, if◌then◌else◌, Bool, true, false, Bool-cases, List, [], ◌∷◌,
}
use dockv6_project.CString.{Memory, put_word, memset}
use dockv6_project.CString.Fill.{memset-Filled}
use dockv6_project.Kalloc.{Kmem, pgsize, v2p, get_word, kalloc}
use dockv6_project.Kalloc.Words.{word_back, word_kept}
use dockv6_project.Kalloc.FreeList.{All, IsPage, Holds, Allocates, kalloc-Allocates}
use dockv6_project.Vm.{
  pdx, ptx, pte_addr, present, user, p2v, with_p, set_word, new_table, walkpgdir, Res, panic,
  out_of_fuel, ok, map_page, map_loop, mappages, pgrounddown, last_page, uva2ka,
}

-- The address of the directory's entry for `va`.
abbrev pub pde_of : ℕ → ℕ → ℕ
pde_of pgdir va = pgdir + 4 * pdx va

-- A page directory: a page of its own, which is not free, and whose entry for `va`, where it is
-- present, leads to another page.
pub record DirOk (e : ℕ) (k : Kmem) (xs : List ℕ) (pgdir va : ℕ) : Type 0 where
  pub free_list : Holds e k xs
  pub page : IsPage e pgdir
  pub not_free : All (λ y. y ≢ pgdir) xs
  pub table :
      present (get_word k.memory (pde_of pgdir va)) ≡ true
      → let q = p2v (pte_addr (get_word k.memory (pde_of pgdir va))) in IsPage e q × q ≢ pgdir

-- What `walkpgdir` has found: the place `p` of the entry for `va`.
pub record Walked (pgdir va p : ℕ) (k' : Kmem) : Type 0 where
  pub is_present : present (get_word k'.memory (pde_of pgdir va)) ≡ true
  pub leads : p2v (pte_addr (get_word k'.memory (pde_of pgdir va))) + 4 * ptx va ≡ p
  pub apart : (p + 4 ≤ pde_of pgdir va) ⊎ (pde_of pgdir va + 4 ≤ p)
  pub nonzero : p ≢ 0

-- Entries of different pages do not overlap.
pages_apart :
    (p q a b : ℕ)
    → p % pgsize ≡ 0
    → q % pgsize ≡ 0
    → p ≢ q
    → a < 1024
    → b < 1024
    → (p + 4 * a + 4 ≤ q + 4 * b) ⊎ (q + 4 * b + 4 ≤ p + 4 * a)
pages_apart p q a b hp hq ne la lb = omega arith

table_word : (e x : ℕ) → IsPage e x → p2v (pte_addr (v2p x + 7)) ≡ x
table_word e x pg = omega (arith, pg.aligned, pg.mapped, pg.below)

cleared_word :
    (m : Memory) (x i a w : ℕ)
    → i < 1024
    → (x + 4 * i + 4 ≤ a) ⊎ (a + 4 ≤ x + 4 * i)
    → get_word (put_word (memset m x 0 pgsize) a w) (x + 4 * i) ≡ 0
cleared_word m x i a w l out =
    let f = memset-Filled m x 0 pgsize in
    let b0 = f.filled (x + 4 * i) (omega arith) (omega arith) in
    let b1 = f.filled (x + 4 * i + 1) (omega arith) (omega arith) in
    let b2 = f.filled (x + 4 * i + 2) (omega arith) (omega arith) in
    let b3 = f.filled (x + 4 * i + 3) (omega arith) (omega arith) in
    word_kept (memset m x 0 pgsize) (x + 4 * i) a w out ∙ omega (arith, b0, b1, b2, b3)

new_table-Walked :
    (e : ℕ) (k : Kmem) (pgdir va x : ℕ)
    → IsPage e pgdir
    → IsPage e x
    → x ≢ pgdir
    → let r = new_table k (pde_of pgdir va) va x in
      Walked pgdir va r.0 r.1 × (get_word r.1.memory r.0 ≡ 0)
unfolding new_table
new_table-Walked e k pgdir va x dir page ne =
    let some_page : (x == 0) ≡ false = ground (arith, page.mapped) in
    let small : v2p x + 7 < 2 ^ 32 = omega (arith, page.aligned, page.mapped, page.below) in
    let back = word_back (memset k.memory x 0 pgsize) (pde_of pgdir va) (v2p x + 7) small in
    let out =
      pages_apart x pgdir (ptx va) (pdx va) page.aligned dir.aligned ne (omega arith)
        (omega arith) in
    rw some_page (
      record {
        is_present = rw back (ground (arith, page.aligned));
        leads = rw back (ap (λ q. q + 4 * ptx va) (table_word e x page));
        apart = out;
        nonzero = omega (arith, page.mapped);
      },
      cleared_word k.memory x (ptx va) (pde_of pgdir va) (v2p x + 7) (omega arith) out,
    )

-- What one page of `mappages` ends with.
pub record MapEnd (k : Kmem) (xs : List ℕ) (pgdir va pa : ℕ) (r : Bool × Kmem) : Type 0 where
  pub mapped : r.0 ≡ true → uva2ka r.1 pgdir va ≡ p2v pa
  pub failed : r.0 ≡ false → (xs ≡ []) × (present (get_word k.memory (pde_of pgdir va)) ≡ false)

-- The page is mapped already.
abbrev pub IsMapped : Kmem → ℕ → ℕ → Type 0
IsMapped k pgdir va = present (get_word k.memory (walkpgdir k pgdir va false).0) ≡ true

abbrev pub MapEnds : Kmem → List ℕ → ℕ → ℕ → ℕ → Res (Bool × Kmem) → Type 0
MapEnds k xs pgdir va pa panic = IsMapped k pgdir va
MapEnds k xs pgdir va pa out_of_fuel = ⊥
MapEnds k xs pgdir va pa (ok r) = MapEnd k xs pgdir va pa r

-- What the entry holds afterwards.
entry_word : (pa perm : ℕ) → pa % pgsize ≡ 0 → perm < pgsize → pte_addr (pa + with_p perm) ≡ pa
entry_word pa perm al l = ground arith

finds_page :
    (k : Kmem) (pgdir va p pa perm : ℕ)
    → Walked pgdir va p k
    → pa % pgsize ≡ 0
    → pa + pgsize ≤ 2 ^ 32
    → perm < pgsize
    → user perm ≡ true
    → uva2ka (set_word k p (pa + with_p perm)) pgdir va ≡ p2v pa
unfolding uva2ka walkpgdir
finds_page k pgdir va p pa perm w al hi lp us =
    let v = pa + with_p perm in
    let fits : v < 2 ^ 32 = ground arith in
    let pde : get_word (put_word k.memory p v) (pde_of pgdir va)
        ≡ get_word k.memory (pde_of pgdir va) =
      word_kept k.memory (pde_of pgdir va) p v (omega (arith, w.apart)) in
    let pte : get_word (put_word k.memory p v) p ≡ v = word_back k.memory p v fits in
    let is_p : present v ≡ true = ground (arith, al) in
    let is_u : user v ≡ true = ground (arith, al, us) in
    rw (pde, w.is_present, w.leads, pte, is_p, is_u) (ap p2v (entry_word pa perm al lp))

-- `map_page` behind the walk, for an entry at `p`.
map_at :
    (k k1 : Kmem) (xs : List ℕ) (pgdir va p pa perm : ℕ)
    → Walked pgdir va p k1
    → (present (get_word k1.memory p) ≡ true → IsMapped k pgdir va)
    → pa % pgsize ≡ 0
    → pa + pgsize ≤ 2 ^ 32
    → perm < pgsize
    → user perm ≡ true
    → MapEnds k xs pgdir va pa (
        if p == 0
        then ok (false, k1)
        else if present (get_word k1.memory p)
        then panic
        else ok (true, set_word k1 p (pa + with_p perm)))
map_at k k1 xs pgdir va p pa perm w before al hi lp us =
    let nonzero : (p == 0) ≡ false = ground (arith, w.nonzero) in
    elim (Bool-cases (present (get_word k1.memory p))) [
      | inl there ↦ rw (nonzero, there) (before there)
      | inr absent ↦
          rw (nonzero, absent)
            (record {
              mapped = λ _. finds_page k1 pgdir va p pa perm w al hi lp us;
              failed = λ q. absurd (ground (arith, q));
            })
    ]

-- The walk that meets a table, and the one that does not.
old_table-Walked :
    (e : ℕ) (k : Kmem) (pgdir va q : ℕ)
    → IsPage e pgdir
    → present (get_word k.memory (pde_of pgdir va)) ≡ true
    → p2v (pte_addr (get_word k.memory (pde_of pgdir va))) ≡ q
    → IsPage e q
    → q ≢ pgdir
    → Walked pgdir va (q + 4 * ptx va) k
old_table-Walked e k pgdir va q dir pr eq page ne = record {
  is_present = pr;
  leads = ap (λ (a : ℕ). a + 4 * ptx va) eq;
  apart =
      pages_apart q pgdir (ptx va) (pdx va) page.aligned dir.aligned ne (omega arith) (omega arith);
  nonzero = omega (arith, page.mapped);
}

walk_old :
    (k : Kmem) (pgdir va : ℕ)
    → present (get_word k.memory (pde_of pgdir va)) ≡ true
    → walkpgdir k pgdir va false
      ≡ (p2v (pte_addr (get_word k.memory (pde_of pgdir va))) + 4 * ptx va, k)
unfolding walkpgdir
walk_old k pgdir va pr = rw pr refl

map_new :
    (e : ℕ) (k : Kmem) (xs : List ℕ) (pgdir va pa perm : ℕ) (r : ℕ × Kmem)
    → Allocates e xs r
    → DirOk e k xs pgdir va
    → present (get_word k.memory (pde_of pgdir va)) ≡ false
    → pa % pgsize ≡ 0
    → pa + pgsize ≤ 2 ^ 32
    → perm < pgsize
    → user perm ≡ true
    → let q = new_table r.1 (pde_of pgdir va) va r.0 in
      MapEnds k xs pgdir va pa (
        if q.0 == 0
        then ok (false, q.1)
        else if present (get_word q.1.memory q.0)
        then panic
        else ok (true, set_word q.1 q.0 (pa + with_p perm)))
unfolding new_table
map_new e k [] pgdir va pa perm r a d absent al hi lp us =
    rw a.0 (record { mapped = λ q. absurd (ground (arith, q)); failed = λ _. (refl, absent) })
map_new e k (x ∷ xs) pgdir va pa perm r a d absent al hi lp us =
    let (w, clear) = new_table-Walked e r.1 pgdir va x d.page d.free_list.1 d.not_free.0 in
    rw a.0 (
      map_at k _ (x ∷ xs) pgdir va _ pa perm w (λ h. absurd (ground (arith, h, clear))) al hi lp us)

-- One round of `mappages`.
map_page-MapEnds :
    (e : ℕ) (k : Kmem) (xs : List ℕ) (pgdir va pa perm : ℕ)
    → DirOk e k xs pgdir va
    → pa % pgsize ≡ 0
    → pa + pgsize ≤ 2 ^ 32
    → perm < pgsize
    → user perm ≡ true
    → MapEnds k xs pgdir va pa (map_page k pgdir va pa perm)
unfolding map_page walkpgdir
map_page-MapEnds e k xs pgdir va pa perm d al hi lp us =
    elim (Bool-cases (present (get_word k.memory (pde_of pgdir va)))) [
      | inl pr ↦
          let (page, ne) = d.table pr in
          let q = p2v (pte_addr (get_word k.memory (pde_of pgdir va))) in
          let w = old_table-Walked e k pgdir va q d.page pr refl page ne in
          rw pr (
            map_at k k xs pgdir va (q + 4 * ptx va) pa perm w
              (λ h.
                ap (λ (r : ℕ × Kmem). present (get_word k.memory r.0)) (walk_old k pgdir va pr) ∙ h)
              al hi lp us)
      | inr absent ↦ rw absent (
          map_new e k xs pgdir va pa perm (kalloc k) (kalloc-Allocates e k xs d.free_list) d absent
            al hi lp us)
    ]

-- The only round of the loop.
last_round :
    (fuel : ℕ) (k : Kmem) (xs : List ℕ) (pgdir va pa perm : ℕ) (r : Res (Bool × Kmem))
    → MapEnds k xs pgdir va pa r
    → MapEnds k xs pgdir va pa (elim r [
      | panic ↦ panic
      | out_of_fuel ↦ out_of_fuel
      | ok r ↦
          if r.0 && not (va == va)
          then map_loop fuel r.1 pgdir ((va + pgsize) % 2 ^ 32) va ((pa + pgsize) % 2 ^ 32) perm
          else ok r
    ])
last_round fuel k xs pgdir va pa perm panic m = m
last_round fuel k xs pgdir va pa perm out_of_fuel m = m
last_round fuel k xs pgdir va pa perm (ok r) m =
    let ends : (r.0 && not (va == va)) ≡ false = ground arith in rw ends m

-- `mappages` of a range within one user page, from its start on, maps the page where it was not
-- mapped: `uva2ka` then finds the page at `pa`. It fails only when the directory has no table for the
-- page and no page is free, and panics only when the page was mapped already. One round is enough.
pub uva2ka-mappages :
    (fuel e : ℕ) (k : Kmem) (xs : List ℕ) (pgdir va size pa perm : ℕ)
    → DirOk e k xs pgdir va
    → va % pgsize ≡ 0
    → va + pgsize ≤ 2 ^ 32
    → 0 < size
    → size ≤ pgsize
    → pa % pgsize ≡ 0
    → pa + pgsize ≤ 2 ^ 32
    → perm < pgsize
    → user perm ≡ true
    → MapEnds k xs pgdir va pa (mappages (suc fuel) k pgdir va size pa perm)
unfolding mappages map_loop
uva2ka-mappages fuel e k xs pgdir va size pa perm d va_al va_hi some_bytes one al hi lp us =
    let first : pgrounddown va ≡ va = omega arith in
    let last : last_page va size ≡ va = omega arith in
    rw (first, last)
      (last_round fuel k xs pgdir va pa perm (map_page k pgdir va pa perm)
        (map_page-MapEnds e k xs pgdir va pa perm d al hi lp us))
