-- ===== src/Queue/Enqueue.antt =====
-- A bin as the list of its processes, and `pqueue_enqueue` of proc.c on that list.
use dockv6_project.Base.{
  ℕ, suc, ◌+◌, ◌<◌, ◌≡◌, ◌≢◌, refl, sym, arith, List, [], ◌∷◌, ◌++◌, Option, none, some,
}
use dockv6_project.Kernel.{Kernel, Proc, nbin, set_bin}
use dockv6_project.Queue.{pqueue_enqueue, append_to_bin, set_next, set_priority}

abbrev pub length : List ℕ → ℕ
length [] = 0
length (x ∷ xs) = suc (length xs)

abbrev pub All {ℓ} : (ℕ → Type ℓ) → List ℕ → Type ℓ
All P [] = Unit
All P (x ∷ xs) = P x × All P xs

abbrev pub last : ℕ → List ℕ → ℕ
last x [] = x
last x (y ∷ ys) = last y ys

-- The links from `h` on lead through just these processes.
abbrev pub Chain : (ℕ → Proc) → Option ℕ → List ℕ → Type 0
Chain ps h [] = h ≡ none
Chain ps h (x ∷ xs) = (h ≡ some x) × Chain ps (ps x).next xs

-- No process twice.
abbrev pub Distinct : List ℕ → Type 0
Distinct [] = Unit
Distinct (x ∷ xs) = All (λ y. y ≢ x) xs × Distinct xs

-- `bin->tail` of a bin that is not empty.
abbrev pub TailIs : Option ℕ → List ℕ → Type 0
TailIs t [] = Unit {0}
TailIs t (x ∷ xs) = t ≡ some (last x xs)

-- Bin `n` holds these processes, the first one at its head.
pub record IsBin (k : Kernel) (n : ℕ) (xs : List ℕ) : Type 0 where
  pub chain : Chain k.procs (k.bins n).head xs
  pub tail : TailIs (k.bins n).tail xs
  pub size : (k.bins n).size ≡ length xs
  pub distinct : Distinct xs

-- Links change only where `next` does.
pub Chain-frame :
    (ps qs : ℕ → Proc) (h : Option ℕ) (xs : List ℕ)
    → All (λ x. (qs x).next ≡ (ps x).next) xs
    → Chain ps h xs
    → Chain qs h xs
Chain-frame ps qs h [] a c = c
Chain-frame ps qs h (x ∷ xs) a c = (c.0, rw a.0 (Chain-frame ps qs (ps x).next xs a.1 c.1))

last-ne : (z y : ℕ) (ys : List ℕ) → All (λ x. x ≢ z) (y ∷ ys) → last y ys ≢ z
last-ne z y [] a = a.0
last-ne z y (x ∷ xs) a = last-ne z x xs a.1

-- The links after `p` is put behind the last process of the chain.
Chain-append :
    (ps qs : ℕ → Proc) (h : Option ℕ) (p x : ℕ) (xs : List ℕ)
    → Chain ps h (x ∷ xs)
    → Distinct (x ∷ xs)
    → All (λ y. y ≢ p) (x ∷ xs)
    → ((y : ℕ) → y ≢ p → last x xs ≢ y → (qs y).next ≡ (ps y).next)
    → (qs (last x xs)).next ≡ some p
    → (qs p).next ≡ none
    → Chain qs h (x ∷ (xs ++ p ∷ []))
Chain-append ps qs h p x [] c d a keep link stop = (c.0, (link, stop))
Chain-append ps qs h p x (y ∷ xs) c d a keep link stop = (
  c.0,
  rw (keep x a.0 (last-ne x y xs d.0))
      (Chain-append ps qs (ps x).next p y xs c.1 d.1 a.1 keep link stop),
)

last-append : (x p : ℕ) (xs : List ℕ) → last x (xs ++ p ∷ []) ≡ p
last-append x p [] = refl
last-append x p (y ∷ ys) = last-append y p ys

length-snoc : (p : ℕ) (xs : List ℕ) → length (xs ++ p ∷ []) ≡ length xs + 1
length-snoc p [] = refl
length-snoc p (x ∷ xs) = omega (arith, length-snoc p xs)

All-snoc {ℓ} : (P : ℕ → Type ℓ) (p : ℕ) (xs : List ℕ) → All P xs → P p → All P (xs ++ p ∷ [])
All-snoc P p [] a h = (h, tt)
All-snoc P p (x ∷ xs) a h = (a.0, All-snoc P p xs a.1 h)

Distinct-snoc : (p : ℕ) (xs : List ℕ) → Distinct xs → All (λ y. y ≢ p) xs → Distinct (xs ++ p ∷ [])
Distinct-snoc p [] d a = (tt, tt)
Distinct-snoc p (x ∷ xs) d a =
    (All-snoc (λ y. y ≢ x) p xs d.0 (λ e. a.0 (sym e)), Distinct-snoc p xs d.1 a.1)

-- The kernel after `p` is put behind `t` in bin `n`, whose head is `h`.
abbrev pub put_behind : Kernel → ℕ → ℕ → ℕ → ℕ → Kernel
put_behind k p n h t =
    set_next
      (set_bin (set_next (set_priority k p n) t (some p)) n
        (record { head = some h; tail = some p; size = (k.bins n).size + 1 }))
      p none

-- The two branches of `pqueue_enqueue`.
enqueue-empty :
    (k : Kernel) (p n : ℕ)
    → (k.bins n).head ≡ none
    → pqueue_enqueue k p n
      ≡ set_next
          (set_bin
            (set_priority k p n)
            n
            (record { head = some p; tail = some p; size = (k.bins n).size + 1 }))
          p
          none
unfolding pqueue_enqueue
enqueue-empty k p n e = rw (e, append_to_bin)

enqueue-behind :
    (k : Kernel) (p n h t : ℕ)
    → (k.bins n).head ≡ some h
    → (k.bins n).tail ≡ some t
    → pqueue_enqueue k p n ≡ put_behind k p n h t
unfolding pqueue_enqueue
enqueue-behind k p n h t e e' = rw (e, e', append_to_bin)

-- `pqueue_enqueue(p, n)` puts a process that is not in bin `n`, one of the NBIN bins, at the end of
-- that bin, behind the processes that it held, and counts it.
pub enqueue-IsBin :
    (k : Kernel) (p n : ℕ) (xs : List ℕ)
    → n < nbin
    → IsBin k n xs
    → All (λ y. y ≢ p) xs
    → IsBin (pqueue_enqueue k p n) n (xs ++ p ∷ [])
enqueue-IsBin k p n [] inside b out =
    rw (enqueue-empty k p n b.chain) (record {
      chain = ground arith;
      tail = ground arith;
      size = ground arith;
      distinct = (tt, tt);
    })
enqueue-IsBin k p n (x ∷ xs) inside b out =
    rw (enqueue-behind k p n x (last x xs) b.chain.0 b.tail) (record {
      chain =
          Chain-append k.procs (put_behind k p n x (last x xs)).procs
            ((put_behind k p n x (last x xs)).bins n).head p x xs (ground arith, b.chain.1)
            b.distinct out (λ y ne ne'. ground arith) (ground (arith, last-ne p x xs out))
            (ground arith);
      tail = ground (arith, last-append x p xs);
      size = ground (arith, length-snoc p xs);
      distinct = Distinct-snoc p (x ∷ xs) b.distinct out;
    })

next-enqueue :
    (k : Kernel) (p n : ℕ) (xs : List ℕ) (y : ℕ)
    → IsBin k n xs
    → y ≢ p
    → All (λ x. x ≢ y) xs
    → ((pqueue_enqueue k p n).procs y).next ≡ (k.procs y).next
next-enqueue k p n [] y b ne a = rw (enqueue-empty k p n b.chain) (ground arith)
next-enqueue k p n (x ∷ xs) y b ne a =
    rw (enqueue-behind k p n x (last x xs) b.chain.0 b.tail) (ground (arith, last-ne y x xs a))

bins-enqueue :
    (k : Kernel) (p n : ℕ) (xs : List ℕ) (j : ℕ)
    → IsBin k n xs
    → j ≢ n
    → (pqueue_enqueue k p n).bins j ≡ k.bins j
bins-enqueue k p n [] j b ne = rw (enqueue-empty k p n b.chain) (ground arith)
bins-enqueue k p n (x ∷ xs) j b ne =
    rw (enqueue-behind k p n x (last x xs) b.chain.0 b.tail) (ground arith)

-- The two lists share no process.
abbrev pub Apart : List ℕ → List ℕ → Type 0
Apart xs ys = All (λ y. All (λ x. x ≢ y) xs) ys

links_kept :
    (k : Kernel) (p n : ℕ) (xs ys : List ℕ)
    → IsBin k n xs
    → All (λ y. y ≢ p) ys
    → Apart xs ys
    → All (λ y. ((pqueue_enqueue k p n).procs y).next ≡ (k.procs y).next) ys
links_kept k p n xs [] b a d = tt
links_kept k p n xs (y ∷ ys) b a d =
    (next-enqueue k p n xs y b a.0 d.0, links_kept k p n xs ys b a.1 d.1)

-- `pqueue_enqueue(p, n)` leaves every other bin as it is: a bin that shares no process with bin `n`
-- and does not hold `p` keeps its list of processes.
pub enqueue-IsBin_other :
    (k : Kernel) (p n j : ℕ) (xs ys : List ℕ)
    → IsBin k n xs
    → IsBin k j ys
    → j ≢ n
    → All (λ y. y ≢ p) ys
    → Apart xs ys
    → IsBin (pqueue_enqueue k p n) j ys
enqueue-IsBin_other k p n j xs ys b c ne a d =
    let same = bins-enqueue k p n xs j b ne in
    record {
      chain = rw same (
          Chain-frame k.procs (pqueue_enqueue k p n).procs (k.bins j).head ys
            (links_kept k p n xs ys b a d) c.chain);
      tail = rw same c.tail;
      size = rw same c.size;
      distinct = c.distinct;
    }
