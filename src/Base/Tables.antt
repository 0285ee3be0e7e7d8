-- ===== src/Base/Tables.antt =====
-- The kernel's fixed-size arrays as functions of the index, and the loops that scan them.
use Prim.Native.Nat.{ℕ, zero, suc, ◌+◌, ◌≤◌, ◌<◌}
use mathlib.Core.Path.{◌≡◌, refl}
use mathlib.Core.Logic.{◌⊎◌, inl, inr}
use mathlib.Core.Bool.{Bool, true, false}
use mathlib.Core.Option.{Option, none, some}
use native.Mathlib.Omega.{arith}
use native.Mathlib.Decide.{ℕ_discrete}
use dockv6_project.Base.Tests.{◌==◌, if◌then◌else◌, Bool-cases}

-- `arr[i] = v`.
abbrev pub update {ℓ} : {A : Type ℓ} → (ℕ → A) → ℕ → A → ℕ → A
update f i v j = if i == j then v else f j

-- `for (j = i; j < i + n; j++) if (test(j)) goto found;`
unfoldable pub find_first : ℕ → ℕ → (ℕ → Bool) → Option ℕ
find_first zero i test = none
find_first (suc n) i test = let rest = find_first n (suc i) test in if test i then some i else rest

-- What such a scan finds: the least index that passes, or that none does.
pub record FirstAt (n i : ℕ) (test : ℕ → Bool) (j : ℕ) : Type 0 where
  pub above : i ≤ j
  pub below : j < i + n
  pub passes : test j ≡ true
  pub earlier : (k : ℕ) → i ≤ k → k < j → test k ≡ false

abbrev pub NoneIn : ℕ → ℕ → (ℕ → Bool) → Type 0
NoneIn n i test = (k : ℕ) → i ≤ k → k < i + n → test k ≡ false

false_from :
    (i : ℕ) (test : ℕ → Bool) (k : ℕ)
    → test i ≡ false
    → (suc i ≤ k → test k ≡ false)
    → i ≤ k
    → test k ≡ false
false_from i test k miss rest h = elim (ℕ_discrete k i) [
  | yes e ↦ rw e miss
  | no ne ↦ rest (omega arith)
]

pub find_first_cases :
    (n i : ℕ) (test : ℕ → Bool)
    → ((find_first n i test ≡ none) × NoneIn n i test)
      ⊎ ((j : ℕ) × (find_first n i test ≡ some j) × FirstAt n i test j)
unfolding find_first
find_first_cases zero i test = inl (refl, λ k h l. absurd (omega arith))
find_first_cases (suc n) i test = elim (Bool-cases (test i)) [
  | inl hit ↦ inr (
    i,
    rw hit,
    record {
      above = omega arith;
      below = omega arith;
      passes = hit;
      earlier = λ k h l. absurd (omega arith);
    },
  )
  | inr miss ↦ elim (find_first_cases n (suc i) test) [
    | inl (e, clear) ↦
        inl (rw (miss, e), λ k h l. false_from i test k miss (λ h'. clear k h' (omega arith)) h)
    | inr (j, e, at) ↦ inr (
      j,
      rw (miss, e),
      record {
        above = omega arith;
        below = omega arith;
        passes = at.passes;
        earlier = λ k h l. false_from i test k miss (λ h'. at.earlier k h' l) h;
      },
    )
  ]
]
