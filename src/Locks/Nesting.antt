-- ===== src/Locks/Nesting.antt =====
-- `pushcli` and `popcli` of spinlock.c are matched.
use dockv6_project.Base.{
  ℕ, zero, suc, ◌+◌, ◌-◌, ◌≤◌, ◌≡◌, ◌≢◌, refl, sym, arith, ◌==◌, ◌∙◌, ap, if◌then◌else◌, Bool,
  false, Option, none, some,
}
use dockv6_project.Locks.{Cpu, pushcli, popcli}

unfoldable pub pushes : ℕ → Cpu → Cpu
pushes zero c = c
pushes (suc n) c = pushcli (pushes n c)

unfoldable pub pops : ℕ → Cpu → Option Cpu
pops zero c = some c
pops (suc n) c = elim (popcli c) [ none ↦ none | some c' ↦ pops n c' ]

-- A processor with interrupts off, `n` deep.
abbrev inside : ℕ → Bool → Cpu
inside n i = record { ncli = n; intena = i; interrupts = false }

-- What `intena` is once `pushcli` has been called.
abbrev kept_flag : Cpu → Bool
kept_flag c = if c.ncli == 0 then c.interrupts else c.intena

pushes-inside : (n : ℕ) (c : Cpu) → pushes (suc n) c ≡ inside (c.ncli + suc n) (kept_flag c)
unfolding pushes pushcli
pushes-inside zero c = ap (λ x. inside x (kept_flag c)) (omega arith)
pushes-inside (suc n) c = ap pushcli (pushes-inside n c) ∙ ground arith

pop_inside : (n : ℕ) (i : Bool) → popcli (inside (suc (suc n)) i) ≡ some (inside (suc n) i)
unfolding popcli
pop_inside n i = ground arith

pop_last : (i : Bool) → popcli (inside 1 i) ≡ some (record { ncli = 0; intena = i; interrupts = i })
unfolding popcli
pop_last i = refl

pops-inside : (n b : ℕ) (i : Bool) → pops n (inside (suc b + n) i) ≡ some (inside (suc b) i)
unfolding pops
pops-inside zero b i = ap (λ x. some (inside x i)) (omega arith)
pops-inside (suc n) b i =
    let depth : suc b + suc n ≡ suc (suc (b + n)) = omega arith in
    let shift : suc (b + n) ≡ suc b + n = omega arith in
    rw (depth, pop_inside (b + n) i, pops, shift) (pops-inside n b i)

pops_all :
    (n : ℕ) (i : Bool)
    → pops (suc n) (inside (suc n) i) ≡ some (record { ncli = 0; intena = i; interrupts = i })
unfolding pops
pops_all zero i = rw (pop_last i, pops)
pops_all (suc n) i = rw (pop_inside n i, pops) (pops_all n i)

pops_back :
    (n b : ℕ) (c : Cpu)
    → c.ncli ≡ b
    → (b ≢ 0 → c.interrupts ≡ false)
    → (c' : Cpu) × (pops (suc n) (inside (b + suc n) (kept_flag c)) ≡ some c')
      × (c'.ncli ≡ c.ncli)
      × (c'.interrupts ≡ c.interrupts)
pops_back n zero c e sane =
    let depth : 0 + suc n ≡ suc n = omega arith in
    (
      record { ncli = 0; intena = kept_flag c; interrupts = kept_flag c },
      rw depth (pops_all n (kept_flag c)),
      sym e,
      ground arith,
    )
pops_back n (suc b) c e sane = (
  inside (suc b) (kept_flag c),
  pops-inside (suc n) b (kept_flag c),
  sym e,
  sym (sane (omega arith)),
)

-- Interrupts come back with the last of as many `popcli` as there were `pushcli`, as they were before
-- the first of those; until then they are off. This holds on a processor whose interrupts are off
-- while it is in a critical section.
pub pops-pushes :
    (n : ℕ) (c : Cpu)
    → (c.ncli ≢ 0 → c.interrupts ≡ false)
    → ((c' : Cpu) × (pops (suc n) (pushes (suc n) c) ≡ some c')
        × (c'.ncli ≡ c.ncli)
        × (c'.interrupts ≡ c.interrupts))
      × ((m : ℕ)
          → m ≤ n
          → (c' : Cpu) × (pops m (pushes (suc n) c) ≡ some c') × (c'.interrupts ≡ false))
pops-pushes n c sane = rw (pushes-inside n c) (
  pops_back n c.ncli c refl sane,
  λ m l.
      let depth : c.ncli + suc n ≡ suc (c.ncli + n - m) + m = omega arith in
      (
        inside (suc (c.ncli + n - m)) (kept_flag c),
        rw depth (pops-inside m (c.ncli + n - m) (kept_flag c)),
        refl,
      ),
)
