-- ===== src/Vm.antt =====
-- vm.c: page directories and page tables, which lie in pages of the memory that kalloc.c hands out.
-- A pointer is its address; 0 is the null pointer. `|` of fields that do not overlap is a sum: a
-- physical address that is passed to `mappages` is a multiple of the page size, as the code's are.
pub mod Walk
pub mod Shared
pub mod Sharing
mod Tests
use dockv6_project.Base.{
  ℕ, zero, suc, ◌+◌, ◌-◌, ◌*◌, ◌/◌, ◌%◌, ◌^◌, ◌==◌, if◌then◌else◌, ltb, leb, ◌&&◌, ◌||◌, not, Bool,
  true, false, List, [], ◌∷◌,
}
use dockv6_project.CString.{Memory, View, put_word, memset}
use dockv6_project.Kalloc.{
  Kmem, Outcome, pgsize, pgroundup, kernbase, phystop, v2p, get_word, kalloc, kfree,
}

-- `PDX(va)` and `PTX(va)`
abbrev pub pdx : ℕ → ℕ
pdx va = va / 2 ^ 22 % 1024

abbrev pub ptx : ℕ → ℕ
ptx va = va / 2 ^ 12 % 1024

-- `PTE_ADDR(pte)`
abbrev pub pte_addr : ℕ → ℕ
pte_addr e = e / pgsize * pgsize

-- `pte & PTE_P`, `pte & PTE_U`
abbrev pub present : ℕ → Bool
present e = e % 2 == 1

abbrev pub user : ℕ → Bool
user e = e / 4 % 2 == 1

abbrev pub p2v : ℕ → ℕ
p2v a = (a + kernbase) % 2 ^ 32

abbrev pub pgrounddown : ℕ → ℕ
pgrounddown a = a / pgsize * pgsize

-- `perm | PTE_P`
abbrev pub with_p : ℕ → ℕ
with_p perm = if perm % 2 == 1 then perm else perm + 1

-- `PTE_W | PTE_U`
abbrev pub pte_wu : ℕ
pte_wu = 6

abbrev pub set_word : Kmem → ℕ → ℕ → Kmem
set_word k a w = record k { memory = put_word k.memory a w }

abbrev pub clear_page : Kmem → ℕ → Kmem
clear_page k v = record k { memory = memset k.memory v 0 pgsize }

-- The part of `walkpgdir` behind `kalloc`.
unfoldable pub new_table : Kmem → ℕ → ℕ → ℕ → ℕ × Kmem
new_table k pde va pgtab =
    if pgtab == 0
    then (0, k)
    else (pgtab + 4 * ptx va, set_word (clear_page k pgtab) pde (v2p pgtab + 7))

unfoldable pub walkpgdir : Kmem → ℕ → ℕ → Bool → ℕ × Kmem
unfolding new_table
walkpgdir k pgdir va alloc =
    let pde = pgdir + 4 * pdx va in
    let e = get_word k.memory pde in
    if present e
    then (p2v (pte_addr e) + 4 * ptx va, k)
    else if alloc
    then (let r = kalloc k in new_table r.1 pde va r.0)
    else (0, k)

-- What a function of this file comes to.
pub data Res {ℓ} (A : Type ℓ) : Type ℓ where
  panic : Res A
  out_of_fuel : Res A
  ok : A → Res A

-- One round of `mappages`: false is the return of -1.
unfoldable pub map_page : Kmem → ℕ → ℕ → ℕ → ℕ → Res (Bool × Kmem)
map_page k pgdir a pa perm =
    let r = walkpgdir k pgdir a true in
    if r.0 == 0
    then ok (false, r.1)
    else if present (get_word r.1.memory r.0)
    then panic
    else ok (true, set_word r.1 r.0 (pa + with_p perm))

unfoldable pub map_loop : ℕ → Kmem → ℕ → ℕ → ℕ → ℕ → ℕ → Res (Bool × Kmem)
unfolding map_page
map_loop zero k pgdir a last pa perm = out_of_fuel
map_loop (suc fuel) k pgdir a last pa perm = elim (map_page k pgdir a pa perm) [
  | panic ↦ panic
  | out_of_fuel ↦ out_of_fuel
  | ok r ↦
      if r.0 && not (a == last)
      then map_loop fuel r.1 pgdir ((a + pgsize) % 2 ^ 32) last ((pa + pgsize) % 2 ^ 32) perm
      else ok r
]

-- `last`, the last page of `mappages`.
abbrev pub last_page : ℕ → ℕ → ℕ
last_page va size = pgrounddown ((va + size + 2 ^ 32 - 1) % 2 ^ 32)

unfoldable pub mappages : ℕ → Kmem → ℕ → ℕ → ℕ → ℕ → ℕ → Res (Bool × Kmem)
unfolding map_loop
mappages fuel k pgdir va size pa perm =
    map_loop fuel k pgdir (pgrounddown va) (last_page va size) pa perm

unfoldable pub uva2ka : Kmem → ℕ → ℕ → ℕ
uva2ka k pgdir uva =
    let r = walkpgdir k pgdir uva false in
    let e = get_word k.memory r.0 in
    if not (present e) then 0 else if not (user e) then 0 else p2v (pte_addr e)

-- `PGADDR(PDX(a) + 1, 0, 0) - PGSIZE`, and the `a += PGSIZE` behind it.
abbrev pub next_table : ℕ → ℕ
next_table a = (pdx a + 1) * 2 ^ 22 % 2 ^ 32

module _ (kernel_end : ℕ) where
  -- The page of an entry that is present: it is freed, and its entry cleared.
  unfoldable pub drop_page : Kmem → ℕ → Res Kmem
  drop_page k pte =
      let pa = pte_addr (get_word k.memory pte) in
      if pa == 0 then panic else elim (kfree kernel_end k (p2v pa)) [
        | Outcome.done k' ↦ ok (set_word k' pte 0)
        | Outcome.panic ↦ panic
        | Outcome.out_of_fuel ↦ out_of_fuel
      ]

  -- The loop of `deallocuvm`.
  unfoldable pub dealloc_loop : ℕ → Kmem → ℕ → ℕ → ℕ → Res Kmem
  unfolding drop_page
  dealloc_loop zero k pgdir a oldsz = out_of_fuel
  dealloc_loop (suc fuel) k pgdir a oldsz =
      let pte = (walkpgdir k pgdir a false).0 in
      if not (ltb a oldsz)
      then ok k
      else if pte == 0
      then dealloc_loop fuel k pgdir (next_table a) oldsz
      else if present (get_word k.memory pte)
      then elim (drop_page k pte) [
        | panic ↦ panic
        | out_of_fuel ↦ out_of_fuel
        | ok k' ↦ dealloc_loop fuel k' pgdir ((a + pgsize) % 2 ^ 32) oldsz
      ]
      else dealloc_loop fuel k pgdir ((a + pgsize) % 2 ^ 32) oldsz

  -- The new size and the memory.
  unfoldable pub deallocuvm : ℕ → Kmem → ℕ → ℕ → ℕ → Res (ℕ × Kmem)
  unfolding dealloc_loop
  deallocuvm fuel k pgdir oldsz newsz =
      if leb oldsz newsz
      then ok (oldsz, k)
      else elim (dealloc_loop fuel k pgdir (pgroundup newsz) oldsz) [
        | panic ↦ panic
        | out_of_fuel ↦ out_of_fuel
        | ok k' ↦ ok (newsz, k')
      ]

  -- `deallocuvm(pgdir, newsz, oldsz); return 0;`
  unfoldable pub undo_alloc : ℕ → Kmem → ℕ → ℕ → ℕ → Res (ℕ × Kmem)
  unfolding deallocuvm
  undo_alloc fuel k pgdir oldsz newsz = elim (deallocuvm fuel k pgdir newsz oldsz) [
    | panic ↦ panic
    | out_of_fuel ↦ out_of_fuel
    | ok r ↦ ok (0, r.1)
  ]

  -- The same, and `kfree(mem)` behind it.
  unfoldable pub undo_and_free : ℕ → Kmem → ℕ → ℕ → ℕ → ℕ → Res (ℕ × Kmem)
  unfolding undo_alloc
  undo_and_free fuel k pgdir oldsz newsz mem = elim (undo_alloc fuel k pgdir oldsz newsz) [
    | panic ↦ panic
    | out_of_fuel ↦ out_of_fuel
    | ok r ↦ elim (kfree kernel_end r.1 mem) [
      | Outcome.done k' ↦ ok (0, k')
      | Outcome.panic ↦ panic
      | Outcome.out_of_fuel ↦ out_of_fuel
    ]
  ]

  -- The loop of `allocuvm`, and what it returns.
  unfoldable pub alloc_loop : ℕ → Kmem → ℕ → ℕ → ℕ → ℕ → Res (ℕ × Kmem)
  unfolding undo_alloc undo_and_free
  alloc_loop zero k pgdir a oldsz newsz = out_of_fuel
  alloc_loop (suc fuel) k pgdir a oldsz newsz =
      let r = kalloc k in
      if not (ltb a newsz)
      then ok (newsz, k)
      else if r.0 == 0
      then undo_alloc fuel r.1 pgdir oldsz newsz
      else elim (mappages 1 (clear_page r.1 r.0) pgdir a pgsize (v2p r.0) pte_wu) [
        | panic ↦ panic
        | out_of_fuel ↦ out_of_fuel
        | ok q ↦
            if q.0
            then alloc_loop fuel q.1 pgdir ((a + pgsize) % 2 ^ 32) oldsz newsz
            else undo_and_free fuel q.1 pgdir oldsz newsz r.0
      ]

  unfoldable pub allocuvm : ℕ → Kmem → ℕ → ℕ → ℕ → Res (ℕ × Kmem)
  unfolding alloc_loop
  allocuvm fuel k pgdir oldsz newsz =
      if leb kernbase newsz
      then ok (0, k)
      else if ltb newsz oldsz
      then ok (oldsz, k)
      else alloc_loop fuel k pgdir (pgroundup oldsz) oldsz newsz
