-- ===== src/CString/Compare.antt =====
-- What `strncmp`, `memcmp` and `strlen` of string.c decide.
use dockv6_project.Base.{
  ℕ, zero, suc, ◌+◌, ◌≤◌, ◌<◌, ◌≡◌, ◌≢◌, ◌↔◌, refl, arith, true, false, some, Bool-cases, inl, inr,
  ◌==◌, ==_iff, ℕ_discrete,
}
use dockv6_project.Base.Int.{is_zero, sub_ℕ-zero_iff}
use dockv6_project.CString.{View, next, strncmp, memcmp, strlen_from, strlen}

not-==_lem : (a b : ℕ) → a ≢ b → (a == b) ≡ false
not-==_lem a b h = ground arith

eq_of_==_false : (a b : ℕ) → (a == b) ≡ false → a ≢ b
eq_of_==_false a b h = ground arith

same_suc :
    (v w : View) (n : ℕ)
    → v 0 ≡ w 0
    → ((i : ℕ) → i < n → next v i ≡ next w i)
    → (i : ℕ) → i < suc n
    → v i ≡ w i
same_suc v w n e h zero l = e
same_suc v w n e h (suc i) l = h i (omega arith)

-- No NUL among the first `i` bytes.
abbrev pub NoNul : View → ℕ → Type 0
NoNul p i = (k : ℕ) → k < i → p k ≢ 0

-- The two strings agree on their first `n` bytes, as far as the first of them goes.
abbrev pub Agree : View → View → ℕ → Type 0
Agree p q n = (i : ℕ) → i < n → NoNul p i → p i ≡ q i

NoNul-suc : (p : View) (i : ℕ) → p 0 ≢ 0 → NoNul (next p) i → NoNul p (suc i)
NoNul-suc p i live clear zero l = live
NoNul-suc p i live clear (suc k) l = clear k (omega arith)

pub NoNul-next : (p : View) (i : ℕ) → NoNul p (suc i) → NoNul (next p) i
NoNul-next p i clear k l = clear (suc k) (omega arith)

Agree-zero : (p q : View) (n : ℕ) → Agree p q (suc n) → p 0 ≡ q 0
Agree-zero p q n h = h 0 (omega arith) (λ k l. absurd (omega arith))

Agree-next : (p q : View) (n : ℕ) → p 0 ≢ 0 → Agree p q (suc n) → Agree (next p) (next q) n
Agree-next p q n live h i l clear = h (suc i) (omega arith) (NoNul-suc p i live clear)

Agree-suc : (p q : View) (n : ℕ) → p 0 ≡ q 0 → Agree (next p) (next q) n → Agree p q (suc n)
Agree-suc p q n e h zero l clear = e
Agree-suc p q n e h (suc i) l clear = h i (omega arith) (NoNul-next p i clear)

Agree-ended : (p q : View) (n : ℕ) → p 0 ≡ 0 → p 0 ≡ q 0 → Agree p q (suc n)
Agree-ended p q n nul e zero l clear = e
Agree-ended p q n nul e (suc i) l clear = absurd (clear 0 (omega arith) nul)

-- `strncmp(p, q, n)` is 0 exactly when the strings agree on their first `n` bytes, where a NUL in
-- `p` ends the comparison.
pub strncmp-Agree : (p q : View) (n : ℕ) → (is_zero (strncmp p q n) ≡ true) ↔ Agree p q n
unfolding strncmp
strncmp-Agree p q zero = (λ _ i l. absurd (omega arith), λ _. refl)
strncmp-Agree p q (suc n) = elim (ℕ_discrete (p 0) 0) [
  | yes nul ↦
      let test = sub_ℕ-zero_iff (p 0) (q 0) in
      rw ((==_iff (p 0) 0).1 nul)
        (λ e. Agree-ended p q n nul (test.0 e), λ h. test.1 (Agree-zero p q n h))
  | no live ↦ elim (Bool-cases (p 0 == q 0)) [
    | inl e ↦
        let ih = strncmp-Agree (next p) (next q) n in
        rw (not-==_lem _ _ live, e)
          (λ z. Agree-suc p q n ((==_iff _ _).0 e) (ih.0 z), λ h. ih.1 (Agree-next p q n live h))
    | inr e ↦
        let test = sub_ℕ-zero_iff (p 0) (q 0) in
        rw (not-==_lem _ _ live, e)
          (λ z. absurd (eq_of_==_false _ _ e (test.0 z)), λ h. test.1 (Agree-zero p q n h))
  ]
]

-- `memcmp(v, w, n)` is 0 exactly when the first `n` bytes are equal.
pub memcmp-zero_iff :
    (v w : View) (n : ℕ) → (is_zero (memcmp v w n) ≡ true) ↔ ((i : ℕ) → i < n → v i ≡ w i)
unfolding memcmp
memcmp-zero_iff v w zero = (λ _ i l. absurd (omega arith), λ _. refl)
memcmp-zero_iff v w (suc n) =
    let test = sub_ℕ-zero_iff (v 0) (w 0) in
    let ih = memcmp-zero_iff (next v) (next w) n in
    elim (Bool-cases (v 0 == w 0)) [
      | inl e ↦ rw e (
        λ z. same_suc v w n ((==_iff _ _).0 e) (ih.0 z),
        λ h. ih.1 (λ i l. h (suc i) (omega arith)),
      )
      | inr e ↦
          rw e (λ z. absurd (eq_of_==_false _ _ e (test.0 z)), λ h. test.1 (h 0 (omega arith)))
    ]

strlen_from-lem :
    (fuel : ℕ) (s : View) (n k : ℕ)
    → n ≤ k
    → k < n + fuel
    → s k ≡ 0
    → ((i : ℕ) → n ≤ i → i < k → s i ≢ 0)
    → strlen_from fuel s n ≡ some k
unfolding strlen_from
strlen_from-lem zero s n k a b nul clear = absurd (omega arith)
strlen_from-lem (suc fuel) s n k a b nul clear = elim (ℕ_discrete n k) [
  | yes e ↦ rw (e, nul)
  | no ne ↦ rw (not-==_lem _ _ (clear n (omega arith) (omega arith))) (
      strlen_from-lem fuel s (n + 1) k (omega arith) (omega arith) nul
        (λ i l m. clear i (omega arith) m))
]

-- `strlen` returns the number of bytes before the first NUL, with any fuel above that number.
pub strlen_lem :
    (fuel : ℕ) (s : View) (k : ℕ) → k < fuel → s k ≡ 0 → NoNul s k → strlen fuel s ≡ some k
unfolding strlen
strlen_lem fuel s k l nul clear =
    strlen_from-lem fuel s 0 k (omega arith) (omega arith) nul (λ i a b. clear i b)
