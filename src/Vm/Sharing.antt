-- ===== src/Vm/Sharing.antt =====
-- Whom the shared pages of vm.c are given to.
use dockv6_project.Base.{
  ℕ, ◌+◌, ◌^◌, ◌%◌, ◌≤◌, ◌<◌, ◌≡◌, ◌≢◌, ◌⊎◌, Bool, true, false, Option, none, some, List,
}
use dockv6_project.Kalloc.{Kmem, pgsize, pgroundup, v2p, kalloc}
use dockv6_project.Kernel.{inc32}
use dockv6_project.Vm.{Res, pte_wu, clear_page, mappages}
use dockv6_project.Vm.Shared.{
  shm_maxnum, SharedMem, Shmem, State, Slots, holds_it, free_slot, Pages, found, unused, is_page,
  Ends, fails, gets, panics, fault,
}

-- The physical page of the entry `i`, and the memory in which it is mapped: the page that is shared
-- already under the name in the caller's container, or a new blank one, for an entry not in use.
abbrev pub Source : State → List ℕ → ℕ → Kmem → ℕ → Type 0
Source s name i before pa =
    ((is_page name s.proc.container_id (s.list i) ≡ true)
      × (before ≡ s.kmem)
      × (pa ≡ (s.list i).pa))
    ⊎ (((s.list i).in_use ≡ false)
        × ((kalloc s.kmem).0 ≢ 0)
        × (before ≡ clear_page (kalloc s.kmem).1 (kalloc s.kmem).0)
        × (pa ≡ v2p (kalloc s.kmem).0))

-- The page at `pa` is mapped at the end of the process.
abbrev pub MapsLast : State → Kmem → ℕ → Kmem → Type 0
MapsLast s before pa k =
    mappages 1 before s.proc.pgdir (pgroundup s.proc.sz) pgsize pa pte_wu ≡ Res.ok (true, k)

abbrev SlotsOk : ℕ → ℕ → (ℕ → Shmem) → Option ℕ → Slots → Type 0
SlotsOk n i shared new_shmem holds_it = Unit
SlotsOk n i shared new_shmem (free_slot none) =
    (new_shmem ≡ none) × ((k : ℕ) → i ≤ k → k < i + n → (shared k).in_use ≡ true)
SlotsOk n i shared new_shmem (free_slot (some j)) =
    (new_shmem ≡ some j) ⊎ ((i ≤ j) × (j < i + n) × ((shared j).in_use ≡ false))

abbrev PagesOk : (ℕ → SharedMem) → List ℕ → ℕ → Pages → Type 0
PagesOk list name cid (found i) = is_page name cid (list i) ≡ true
PagesOk list name cid (unused none) = Unit
PagesOk list name cid (unused (some i)) = (list i).in_use ≡ false

-- What `shm_get` gives the process: the slot `j` for the page `i`, with one reference more.
pub record Shares (s : State) (name : List ℕ) (va : ℕ) (s' : State) : Type 0 where
  pub address : va ≡ s.proc.sz
  pub size : s'.proc.sz ≡ (s.proc.sz + pgsize) % 2 ^ 32
  pub page : ℕ
  pub before : Kmem
  pub source : Source s name page before (s'.list page).pa
  pub mapped : MapsLast s before (s'.list page).pa s'.kmem
  pub counted : (s'.list page).refcount ≡ inc32 (s.list page).refcount
  pub owner : (s'.list page).container_id ≡ s.proc.container_id
  pub others : (i : ℕ) → i ≢ page → s'.list i ≡ s.list i
  pub slot : ℕ
  pub slot_free : (s.proc.shared slot).in_use ≡ false
  pub slot_leads : (s'.proc.shared slot).global_ptr ≡ some page
  pub other_slots : (j : ℕ) → j ≢ slot → s'.proc.shared j ≡ s.proc.shared j

-- The page that the process is to get cannot be mapped.
abbrev pub Unmapped : State → List ℕ → Type 0
Unmapped s name =
    (i : ℕ) × (before : Kmem) × (pa : ℕ) × Source s name i before pa
    × ((k : Kmem) → MapsLast s before pa k → ⊥)

abbrev pub Gets : State → List ℕ → Ends → Type 0
Gets s name (fails s') = s'.proc ≡ s.proc
Gets s name (gets va s') = Shares s name va s'
Gets s name panics = Unmapped s name
Gets s name fault = (j : ℕ) → j < shm_maxnum → (s.proc.shared j).in_use ≡ true

-- `s1` is `s` but for the memory and for the page, whose count stands.
record Near (s s1 : State) (i : ℕ) : Type 0 where
  same_proc : s1.proc ≡ s.proc
  same_count : (s1.list i).refcount ≡ (s.list i).refcount
  same_list : (k : ℕ) → k ≢ i → s1.list k ≡ s.list k

is_success : Res (Bool × Kmem) → Bool
is_success Res.panic = false
is_success Res.out_of_fuel = false
is_success (Res.ok r) = r.0
