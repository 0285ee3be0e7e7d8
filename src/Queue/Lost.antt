-- ===== src/Queue/Lost.antt =====
-- What `prio_set` of proc.c does to a process at the head of its bin: the bin is not unlinked.
use dockv6_project.Base.{
  ℕ, zero, suc, ◌+◌, ◌≤◌, ◌<◌, ◌≡◌, ◌≢◌, refl, ltb, true, arith, [], ◌∷◌, Option, none, some,
  ==_iff, ℕ_discrete,
}
use dockv6_project.Base.Int.{pos}
use dockv6_project.Kernel.{Kernel, nbin}
use dockv6_project.Queue.{ok, search_bins, move_to_bin, pqueue_enqueue, append_to_bin}
use dockv6_project.Queue.Enqueue.{Chain}

-- Bins that are empty are passed over, and a match at a head ends the search.
search-head :
    (fuel n i : ℕ) (k : Kernel) (pid p j : ℕ) (found : Option ℕ)
    → i ≤ j
    → j < i + n
    → ((b : ℕ) → i ≤ b → b < j → (k.bins b).head ≡ none)
    → (k.bins j).head ≡ some p
    → (k.procs p).pid ≡ pid
    → search_bins fuel n i k pid found ≡ ok (some p) k
unfolding search_bins
search-head fuel zero i k pid p j found lo hi clear e e' = absurd (omega arith)
search-head fuel (suc n) i k pid p j found lo hi clear e e' = elim (ℕ_discrete i j) [
  | yes same ↦ rw (same, e, (==_iff _ _).1 e', search_bins)
  | no ne ↦
      rw (clear i (omega arith) (omega arith), search_bins)
        (search-head fuel n (suc i) k pid p j found (omega arith) (omega arith)
          (λ b l m. clear b (omega arith) m) e e')
]

-- The bin with its head gone from the links: what is left to walk is the head alone.
abbrev pub OnlyHead : Kernel → ℕ → ℕ → Type 0
OnlyHead k j p = Chain k.procs (k.bins j).head (p ∷ [])

head_left :
    (k : Kernel) (p n j : ℕ)
    → j ≢ n
    → (k.bins j).head ≡ some p
    → OnlyHead (pqueue_enqueue k p n) j p
unfolding pqueue_enqueue append_to_bin
head_left k p n j ne e = ground arith

-- Moving the process at the head of the first bin in use to another bin leaves it in its old bin
-- too, and cuts off there whatever stood behind it: the old bin's links lead through it alone.
pub move_to_bin-OnlyHead :
    (fuel : ℕ) (k : Kernel) (pid p n j : ℕ)
    → j < nbin
    → ((b : ℕ) → b < j → (k.bins b).head ≡ none)
    → (k.bins j).head ≡ some p
    → (k.procs p).pid ≡ pid
    → j ≢ n
    → n < nbin
    → (k' : Kernel) × (move_to_bin fuel k pid n ≡ ok (pos 0) k') × OnlyHead k' j p
unfolding move_to_bin
move_to_bin-OnlyHead fuel k pid p n j lt clear e e' ne inside =
    let fits : ltb n nbin ≡ true = ground (arith, inside) in
    let found =
      search-head fuel nbin 0 k pid p j none (omega arith) (omega arith) (λ b _ l. clear b l) e
        e' in
    (pqueue_enqueue k p n, rw (found, move_to_bin) (rw fits refl), head_left k p n j ne e)

-- Enqueuing a process that is still at the head of the bin, as `allocproc` does with an entry whose
-- last process was reaped, cuts off whatever stood behind it.
pub enqueue_again-OnlyHead :
    (k : Kernel) (p n t : ℕ)
    → (k.bins n).head ≡ some p
    → (k.bins n).tail ≡ some t
    → OnlyHead (pqueue_enqueue k p n) n p
unfolding pqueue_enqueue
enqueue_again-OnlyHead k p n t e e' = rw (e, e', append_to_bin) (ground arith)
