-- ===== src/Vm/Shared.antt =====
-- vm.c and shmem.h: pages that processes share by name. `list` is `shm_list.list`, `proc` what the
-- calling process has of its own, and `low` what the address 0 shows, with which `shm_get` compares
-- a name. A pointer to an entry of `list` is its index. The lock of the list is held within a step.
use dockv6_project.Base.{
  ℕ, zero, suc, ◌+◌, ◌-◌, ◌^◌, ◌%◌, ◌==◌, if◌then◌else◌, ltb, ◌&&◌, not, Bool, true, false, Option,
  none, some, is_null, update, List, [], find_first,
}
use dockv6_project.Base.Int.{is_zero}
use dockv6_project.CString.{View, bytes, strncmp, strncpy, strlen}
use dockv6_project.Kalloc.{Kmem, Outcome, pgsize, pgroundup, v2p, get_word, kalloc, kfree}
use dockv6_project.Kernel.{inc32, dec32}
use dockv6_project.Pipe.Contents.{length}
use dockv6_project.Vm.{
  Res, pte_addr, pte_wu, present, p2v, set_word, clear_page, walkpgdir, mappages,
}

abbrev pub shm_maxnum : ℕ
shm_maxnum = 4

-- `struct shared_mem`
pub record SharedMem : Type 0 where
  pub name : View
  pub pa : ℕ
  pub refcount : ℕ
  pub in_use : Bool
  pub container_id : ℕ

-- `struct shmem`
pub record Shmem : Type 0 where
  pub in_use : Bool
  pub name : View
  pub va : ℕ
  pub global_ptr : Option ℕ

pub record Holder : Type 0 where
  pub sz : ℕ
  pub pgdir : ℕ
  pub container_id : ℕ
  pub shared : ℕ → Shmem

pub record State : Type 0 where
  pub kmem : Kmem
  pub low : View
  pub list : ℕ → SharedMem
  pub proc : Holder

-- `init_shm_list`
abbrev pub init_shm_list : (ℕ → SharedMem) → ℕ → SharedMem
init_shm_list list i = record (list i) { refcount = 0; in_use = false; container_id = 0 }

-- `strncmp(v, name, strlen(name)) == 0`. For a name of more than 16 bytes the comparison may read what
-- stands behind the name `v`.
unfoldable pub same_prefix : View → List ℕ → Bool
same_prefix v name = is_zero (strncmp v (bytes name) (length name))

-- The first loop of `shm_get`: the process holds the page, or its first slot not in use.
pub data Slots : Type 0 where
  holds_it : Slots
  free_slot : Option ℕ → Slots

unfoldable pub scan_slots : ℕ → ℕ → (ℕ → Shmem) → List ℕ → Option ℕ → Slots
scan_slots zero i shared name new_shmem = free_slot new_shmem
scan_slots (suc n) i shared name new_shmem =
    let rest =
      scan_slots n (suc i) shared name
        (if not (shared i).in_use && is_null new_shmem then some i else new_shmem) in
    if same_prefix (shared i).name name then holds_it else rest

-- The second loop: the page of that name in the container, or the first entry not in use.
pub data Pages : Type 0 where
  found : ℕ → Pages
  unused : Option ℕ → Pages

abbrev pub is_page : List ℕ → ℕ → SharedMem → Bool
is_page name cid m = same_prefix m.name name && (m.container_id == cid)

unfoldable pub scan_pages : ℕ → ℕ → (ℕ → SharedMem) → List ℕ → ℕ → Option ℕ → Pages
scan_pages zero i list name cid free_ptr = unused free_ptr
scan_pages (suc n) i list name cid free_ptr =
    let rest =
      scan_pages n (suc i) list name cid
        (if is_null free_ptr && not (list i).in_use then some i else free_ptr) in
    if is_page name cid (list i) then found i else rest

-- `char name[16]`: a copy of more bytes overwrites the fields behind it.
abbrev pub too_long : List ℕ → Bool
too_long name = ltb 16 (length name)

-- The return of -1 or of an address, a panic, or a write through a null pointer or behind a name.
pub data Ends : Type 0 where
  fails : State → Ends
  gets : ℕ → State → Ends
  panics : Ends
  fault : Ends

-- What `shm_get` does at last, with the page `i` mapped.
unfoldable pub attach : State → List ℕ → Option ℕ → ℕ → Ends
attach s name none i = fault
attach s name (some j) i =
    let p = s.proc in
    let slot : Shmem = record {
      in_use = true;
      name = strncpy (p.shared j).name (bytes name) (length name);
      va = p.sz;
      global_ptr = some i;
    } in
    let m = record (s.list i) {
      refcount = inc32 (s.list i).refcount;
      container_id = p.container_id;
    } in
    if too_long name
    then fault
    else gets p.sz (record s {
      list = update s.list i m;
      proc = record p { sz = (p.sz + pgsize) % 2 ^ 32; shared = update p.shared j slot };
    })

-- `mappages(pgdir, a, PGSIZE, pa, PTE_W | PTE_U)` at the end of the process, and what follows it.
unfoldable pub map_found : State → List ℕ → Option ℕ → ℕ → Ends
unfolding attach
map_found s name slot i =
    elim (mappages 1 s.kmem s.proc.pgdir (pgroundup s.proc.sz) pgsize (s.list i).pa pte_wu) [
      | Res.ok r ↦
          let s' = record s { kmem = r.1 } in if r.0 then attach s' name slot i else fails s'
      | _ ↦ panics
    ]

-- The new page `mem` for the entry `i`. The code panics where `mappages` fails.
unfoldable pub map_new : State → List ℕ → Option ℕ → ℕ → ℕ → Ends
unfolding attach
map_new s name slot i mem =
    elim (mappages 1 (clear_page s.kmem mem) s.proc.pgdir (pgroundup s.proc.sz) pgsize (v2p mem)
      pte_wu) [
        | Res.ok r ↦
            let m = record (s.list i) {
              name = strncpy (s.list i).name (bytes name) (length name);
              pa = v2p mem;
            } in
            if not r.0
            then panics
            else if too_long name
            then fault
            else attach (record s { kmem = r.1; list = update s.list i m }) name slot i
        | _ ↦ panics
      ]

-- `ptr->in_use = 1; mem = kalloc();`
unfoldable pub make_page : State → List ℕ → Option ℕ → ℕ → Ends
unfolding map_new
make_page s name slot i =
    let r = kalloc s.kmem in
    let s' = record s {
      kmem = r.1;
      list = update s.list i (record (s.list i) { in_use = true });
    } in
    if r.0 == 0 then fails s' else map_new s' name slot i r.0

unfoldable pub shm_get : State → List ℕ → Ends
unfolding map_found make_page scan_slots scan_pages
shm_get s name =
    if same_prefix s.low name
    then fails s
    else elim (scan_slots shm_maxnum 0 s.proc.shared name none) [
      | holds_it ↦ fails s
      | free_slot slot ↦ elim (scan_pages shm_maxnum 0 s.list name s.proc.container_id none) [
        | found i ↦ map_found s name slot i
        | unused none ↦ fails s
        | unused (some i) ↦ make_page s name slot i
      ]
    ]

-- `strncpy(name, "", strlen(name))` of the 16 bytes of a name.
abbrev pub clear_name : View → View
clear_name v = elim (strlen 16 v) [
  | none ↦ strncpy v (bytes []) 16
  | some n ↦ strncpy v (bytes []) n
]

-- `if ((*pte & PTE_P) != 0) *pte = 0;`
abbrev pub unmap : Kmem → ℕ → Kmem
unmap k pte = if present (get_word k.memory pte) then set_word k pte 0 else k

abbrev pub left_slot : Holder → ℕ → Holder
left_slot p j = record p {
  sz = (p.sz + 2 ^ 32 - pgsize) % 2 ^ 32;
  shared = update p.shared j (record (p.shared j) {
    in_use = false;
    name = clear_name (p.shared j).name;
    va = 2 ^ 32 - 1;
  });
}

-- The last process frees the page.
unfoldable pub free_page : ℕ → State → ℕ → ℕ → ℕ → Ends
free_page kernel_end s i j pte =
    elim (kfree kernel_end s.kmem (p2v (pte_addr (get_word s.kmem.memory pte)))) [
      | Outcome.done k ↦
          let m = record (s.list i) {
            name = clear_name (s.list i).name;
            pa = 2 ^ 32 - 1;
            in_use = false;
            refcount = dec32 (s.list i).refcount;
          } in
          gets 0
            (record s { kmem = unmap k pte; list = update s.list i m; proc = left_slot s.proc j })
      | _ ↦ panics
    ]

unfoldable pub leave_page : ℕ → State → ℕ → ℕ → Ends
unfolding free_page
leave_page kernel_end s i j =
    let pte = (walkpgdir s.kmem s.proc.pgdir (s.proc.shared j).va false).0 in
    let m = record (s.list i) { refcount = dec32 (s.list i).refcount } in
    if (s.list i).refcount == 1
    then free_page kernel_end s i j pte
    else gets 0
        (record s { kmem = unmap s.kmem pte; list = update s.list i m; proc = left_slot s.proc j })

unfoldable pub shm_rem : ℕ → State → List ℕ → Ends
unfolding leave_page
shm_rem kernel_end s name =
    elim (find_first shm_maxnum 0 (λ i. is_page name s.proc.container_id (s.list i))) [
      | none ↦ fails s
      | some i ↦ elim (find_first shm_maxnum 0 (λ j. same_prefix (s.proc.shared j).name name)) [
        | none ↦ fails s
        | some j ↦ leave_page kernel_end s i j
      ]
    ]
