-- ===== src/Kalloc.antt =====
-- kalloc.c: the physical page allocator. The free pages form a list whose links stand in the first
-- word of each page. The lock is taken round each list update; one call is one step here.
-- `kernel_end` is the linker's symbol `end`.
pub mod Words
pub mod FreeList
pub mod Range
mod Tests
use dockv6_project.Base.{
  ℕ, zero, suc, ◌+◌, ◌-◌, ◌*◌, ◌/◌, ◌%◌, ◌^◌, ◌==◌, if◌then◌else◌, ltb, leb, ◌&&◌, ◌||◌, not, Bool,
  false, true,
}
use dockv6_project.CString.{Memory, put_word, memset}

abbrev pub pgsize : ℕ
pgsize = 4096

abbrev pub kernbase : ℕ
kernbase = 0x8000_0000

abbrev pub phystop : ℕ
phystop = 0xE00_0000

-- `V2P(a)`, in 32 bits.
abbrev pub v2p : ℕ → ℕ
v2p a = (a + 2 ^ 32 - kernbase) % 2 ^ 32

-- `PGROUNDUP(a)`
abbrev pub pgroundup : ℕ → ℕ
pgroundup a = (a + pgsize - 1) % 2 ^ 32 / pgsize * pgsize

-- The 32-bit word at an address, its low byte first.
abbrev pub get_word : Memory → ℕ → ℕ
get_word m a = m a + 256 * m (a + 1) + 65536 * m (a + 2) + 16777216 * m (a + 3)

-- `kmem`, and the memory that holds the links.
pub record Kmem : Type 0 where
  pub memory : Memory
  pub use_lock : Bool
  pub freelist : ℕ

pub data Outcome : Type 0 where
  done : Kmem → Outcome
  panic : Outcome
  out_of_fuel : Outcome

module _ (kernel_end : ℕ) where
  unfoldable pub kfree : Kmem → ℕ → Outcome
  kfree k v =
      if not (v % pgsize == 0) || ltb v kernel_end || leb phystop (v2p v)
      then panic
      else done
          (record k { memory = put_word (memset k.memory v 1 pgsize) v k.freelist; freelist = v })

  -- `for (; p + PGSIZE <= vend; p += PGSIZE) kfree(p);`
  unfoldable pub freerange_loop : ℕ → Kmem → ℕ → ℕ → Outcome
  freerange_loop zero k p vend = out_of_fuel
  freerange_loop (suc fuel) k p vend = elim (leb (p + pgsize) vend) [
    | false ↦ done k
    | true ↦ elim (kfree k p) [
      | done k' ↦ freerange_loop fuel k' (p + pgsize) vend
      | panic ↦ panic
      | out_of_fuel ↦ out_of_fuel
    ]
  ]

  unfoldable pub freerange : ℕ → Kmem → ℕ → ℕ → Outcome
  unfolding freerange_loop
  freerange fuel k vstart vend = freerange_loop fuel k (pgroundup vstart) vend

  unfoldable pub kinit1 : ℕ → Kmem → ℕ → ℕ → Outcome
  unfolding freerange
  kinit1 fuel k vstart vend = freerange fuel (record k { use_lock = false }) vstart vend

  unfoldable pub kinit2 : ℕ → Kmem → ℕ → ℕ → Outcome
  unfolding freerange
  kinit2 fuel k vstart vend = elim (freerange fuel k vstart vend) [
    | done k' ↦ done (record k' { use_lock = true })
    | panic ↦ panic
    | out_of_fuel ↦ out_of_fuel
  ]

-- The page, or 0 when none is free.
unfoldable pub kalloc : Kmem → ℕ × Kmem
kalloc k =
    if k.freelist == 0
    then (0, k)
    else (k.freelist, record k { freelist = get_word k.memory k.freelist })
