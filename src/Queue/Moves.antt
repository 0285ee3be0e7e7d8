-- ===== src/Queue/Moves.antt =====
-- Which process `prio_set` of proc.c moves to another bin.
use dockv6_project.Base.{
  ℕ, zero, suc, ◌<◌, ◌≡◌, ◌≢◌, inl, inr, refl, sym, arith, ◌∙◌, Option, none, some, ◌==◌, ==_iff,
  Bool-cases, Option-cases,
}
use dockv6_project.Kernel.{Kernel, nbin}
use dockv6_project.Queue.{
  Result, ok, fault, out_of_fuel, set_next, append_to_bin, pqueue_enqueue, unlink_behind,
  search_bins,
}

-- No process has another pid or priority.
pub record Same (k k' : Kernel) : Type 0 where
  pub pid : (j : ℕ) → (k'.procs j).pid ≡ (k.procs j).pid
  pub priority : (j : ℕ) → (k'.procs j).priority ≡ (k.procs j).priority

Same-refl : (k : Kernel) → Same k k
Same-refl k = record { pid = λ j. refl; priority = λ j. refl }

Same-trans : {k k' k'' : Kernel} → Same k k' → Same k' k'' → Same k k''
Same-trans a b = record {
  pid = λ j. b.pid j ∙ a.pid j;
  priority = λ j. b.priority j ∙ a.priority j;
}

set_next-Same : (k : Kernel) (p : ℕ) (q : Option ℕ) → Same k (set_next k p q)
set_next-Same k p q = record { pid = λ j. ground arith; priority = λ j. ground arith }

-- What is found has the pid.
abbrev pub Target : Kernel → ℕ → Option ℕ → Type 0
Target k pid none = Unit
Target k pid (some q) = (k.procs q).pid ≡ pid

abbrev pub Finds : Kernel → ℕ → Result (Option ℕ) → Type 0
Finds k pid (ok found k') = Same k k' × Target k pid found
Finds k pid fault = ⊥
Finds k pid out_of_fuel = Unit

unlink_behind-Finds : (fuel : ℕ) (k : Kernel) (p pid : ℕ) → Finds k pid (unlink_behind fuel k p pid)
unfolding unlink_behind
unlink_behind-Finds zero k p pid = tt
unlink_behind-Finds (suc fuel) k p pid = elim (Option-cases (k.procs p).next) [
  | inl e ↦ rw (e, unlink_behind) (Same-refl k, tt)
  | inr (q, e) ↦ elim (Bool-cases ((k.procs q).pid == pid)) [
    | inl t ↦
        rw (e, t, unlink_behind)
          (set_next-Same k p (k.procs q).next, (==_iff (k.procs q).pid pid).0 t)
    | inr f ↦ rw (e, f, unlink_behind) (unlink_behind-Finds fuel k q pid)
  ]
]

Target-later :
    (k k' : Kernel) (pid : ℕ) (found : Option ℕ)
    → Same k k'
    → Target k pid found
    → Target k' pid found
Target-later k k' pid none a t = tt
Target-later k k' pid (some q) a t = a.pid q ∙ t

Target-earlier :
    (k k' : Kernel) (pid : ℕ) (found : Option ℕ)
    → Same k k'
    → Target k' pid found
    → Target k pid found
Target-earlier k k' pid none a t = tt
Target-earlier k k' pid (some q) a t = sym (a.pid q) ∙ t

Finds-earlier :
    (k k' : Kernel) (pid : ℕ) (r : Result (Option ℕ)) → Same k k' → Finds k' pid r → Finds k pid r
Finds-earlier k k' pid (ok found k2) a f = (Same-trans a f.0, Target-earlier k k' pid found a f.1)
Finds-earlier k k' pid fault a f = f
Finds-earlier k k' pid out_of_fuel a f = tt

pub search_bins-Finds :
    (fuel n i : ℕ) (k : Kernel) (pid : ℕ) (found : Option ℕ)
    → Target k pid found
    → Finds k pid (search_bins fuel n i k pid found)
unfolding search_bins
search_bins-Finds fuel zero i k pid found t = (Same-refl k, t)
search_bins-Finds fuel (suc n) i k pid found t = elim (Option-cases (k.bins i).head) [
  | inl e ↦ rw (e, search_bins) (search_bins-Finds fuel n (suc i) k pid found t)
  | inr (p, e) ↦ elim (Bool-cases ((k.procs p).pid == pid)) [
    | inl hit ↦ rw (e, hit, search_bins) (Same-refl k, (==_iff (k.procs p).pid pid).0 hit)
    | inr miss ↦
        rw (e, miss, search_bins)
          (behind (unlink_behind fuel k p pid) (unlink_behind-Finds fuel k p pid)
            (λ k' f t'. search_bins-Finds fuel n (suc i) k' pid f t'))
  ]
]
  where
    behind :
        (r : Result (Option ℕ))
        → Finds k pid r
        → ((k' : Kernel) (f : Option ℕ)
            → Target k' pid f
            → Finds k' pid (search_bins fuel n (suc i) k' pid f))
        → Finds k pid (elim r [
          | ok (some q) k' ↦ search_bins fuel n (suc i) k' pid (some q)
          | ok none k' ↦ search_bins fuel n (suc i) k' pid found
          | fault ↦ fault
          | out_of_fuel ↦ out_of_fuel
        ])
    behind (ok (some q) k') a rest =
        Finds-earlier k k' pid _ a.0 (rest k' (some q) (Target-later k k' pid (some q) a.0 a.1))
    behind (ok none k') a rest =
        Finds-earlier k k' pid _ a.0 (rest k' found (Target-later k k' pid found a.0 t))
    behind fault a rest = a
    behind out_of_fuel a rest = tt

-- A process of that pid has the priority, and no other process has another one than it had.
pub record Moved (k : Kernel) (pid n : ℕ) (k' : Kernel) : Type 0 where
  pub moved : ℕ
  pub right : (k.procs moved).pid ≡ pid
  pub now : (k'.procs moved).priority ≡ n
  pub others : (j : ℕ) → j ≢ moved → (k'.procs j).priority ≡ (k.procs j).priority
  pub bin : n < nbin

priority-enqueue :
    (k : Kernel) (p n j : ℕ)
    → j ≢ p
    → ((pqueue_enqueue k p n).procs j).priority ≡ (k.procs j).priority
unfolding pqueue_enqueue append_to_bin
priority-enqueue k p n j ne = ground arith

priority-enqueue_self : (k : Kernel) (p n : ℕ) → ((pqueue_enqueue k p n).procs p).priority ≡ n
unfolding pqueue_enqueue append_to_bin
priority-enqueue_self k p n = ground arith

pub enqueue-Moved :
    (k k' : Kernel) (pid q n : ℕ)
    → Same k k'
    → (k.procs q).pid ≡ pid
    → n < nbin
    → Moved k pid n (pqueue_enqueue k' q n)
enqueue-Moved k k' pid q n a t l = record {
  moved = q;
  right = t;
  now = priority-enqueue_self k' q n;
  others = λ j ne. priority-enqueue k' q n j ne ∙ a.priority j;
  bin = l;
}
