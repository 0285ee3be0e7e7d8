-- ===== src/Fs/Rounds.antt =====
-- The loop of `namex` of fs.c ends: it takes an element off the path in each round.
use dockv6_project.Base.{
  ℕ, zero, suc, ◌<◌, ◌≤◌, ◌≡◌, ◌⊎◌, refl, arith, ◌==◌, ◌&&◌, Bool, Bool-cases, Option, none, some,
  Option-cases, sym, ◌∙◌, List, [], ◌∷◌, inl, inr, subst, if◌then◌else◌,
}
use dockv6_project.Pipe.Contents.{length}
use dockv6_project.Fs.Icache.{Cache, Run, stops, waits, ends}
use dockv6_project.Fs.Path.{
  skipelem, Caller, is_dotdot, confined, start, Named, Round, over, next_dir, one_round, at_end,
  namex_loop, namex,
}
use dockv6_project.Fs.Elements.{Steps, skipelem-Steps}

Round-cases :
    (r : Round) → ((x : Run Named) × (r ≡ over x)) ⊎ ((i : ℕ) × (c : Cache) × (r ≡ next_dir i c))
Round-cases (over x) = inl (x, refl)
Round-cases (next_dir i c) = inr (i, c, refl)

-- A round that ends the loop, and one that goes on.
module _ (has : ℕ → Bool) (c : Cache) (pid i : ℕ) (parent : Bool) (name path : List ℕ) where
  no_more :
      (fuel : ℕ)
      → skipelem path ≡ none
      → namex_loop (suc fuel) has c pid i parent name path ≡ at_end c i parent name
  unfolding namex_loop
  no_more fuel e = rw (e, namex_loop) refl

  is_over :
      (fuel : ℕ) (r : List ℕ × List ℕ) (x : Run Named)
      → skipelem path ≡ some r
      → one_round has c pid i parent r.0 r.1 ≡ over x
      → namex_loop (suc fuel) has c pid i parent name path ≡ x
  unfolding namex_loop
  is_over fuel r x e q = rw (e, q, namex_loop) refl

  goes_on :
      (fuel : ℕ) (r : List ℕ × List ℕ) (next : ℕ) (c' : Cache)
      → skipelem path ≡ some r
      → one_round has c pid i parent r.0 r.1 ≡ next_dir next c'
      → namex_loop (suc fuel) has c pid i parent name path
        ≡ namex_loop fuel has c' pid next parent r.0 r.1
  unfolding namex_loop
  goes_on fuel r next c' e q = rw (e, q, namex_loop) refl

loop_same :
    (f g : ℕ) (has : ℕ → Bool) (c : Cache) (pid i : ℕ) (parent : Bool) (name path : List ℕ)
    → length path < f
    → length path < g
    → namex_loop f has c pid i parent name path ≡ namex_loop g has c pid i parent name path
loop_same zero g has c pid i parent name path l l' = absurd (omega (arith, l))
loop_same (suc f) zero has c pid i parent name path l l' = absurd (omega (arith, l'))
loop_same (suc f) (suc g) has c pid i parent name path l l' = elim (Option-cases (skipelem path)) [
  | inl e ↦
      no_more has c pid i parent name path f e ∙ sym (no_more has c pid i parent name path g e)
  | inr (r, e) ↦
      let s = subst (Steps path) e (skipelem-Steps path) in
      elim (Round-cases (one_round has c pid i parent r.0 r.1)) [
        | inl (x, q) ↦
            is_over has c pid i parent name path f r x e q
            ∙ sym (is_over has c pid i parent name path g r x e q)
        | inr (next, c', q) ↦
            goes_on has c pid i parent name path f r next c' e q
            ∙ loop_same f g has c' pid next parent r.0 r.1 (omega (arith, l, s.4))
                (omega (arith, l', s.4))
            ∙ sym (goes_on has c pid i parent name path g r next c' e q)
      ]
]

confined-length : (p : Caller) (path : List ℕ) → length (confined p path) ≤ length path
confined-length p path = go p.root path
  where
    go :
        (r : Option ℕ) (s : List ℕ)
        → length (elim r [ none ↦ s | some _ ↦ if is_dotdot s then 46 ∷ [] else s ]) ≤ length s
    go none s = omega arith
    go (some _) [] = omega arith
    go (some _) (a ∷ []) = omega arith
    go (some _) (a ∷ b ∷ []) = elim (Bool-cases ((a == 46) && (b == 46))) [
      | inl e ↦ rw e (omega arith)
      | inr e ↦ rw e (omega arith)
    ]
    go (some _) (a ∷ b ∷ c ∷ s) = omega arith

-- More rounds than the path has bytes are enough for `namex`: it does the same for any number of
-- them.
pub namex-enough :
    (fuel : ℕ) (has : ℕ → Bool) (c : Cache) (p : Caller) (parent : Bool) (path : List ℕ)
    → length path < fuel
    → namex fuel has c p parent path ≡ namex (suc (length path)) has c p parent path
unfolding namex
namex-enough fuel has c p parent path l = go (start c p (confined p path))
  where
    go :
        (r : Run (ℕ × Cache))
        → elim r [
          | stops ↦ stops
          | waits ↦ waits
          | ends (i, c') ↦ namex_loop fuel has c' p.pid i parent [] (confined p path)
        ]
          ≡ elim r [
            | stops ↦ stops
            | waits ↦ waits
            | ends (i, c') ↦
                namex_loop (suc (length path)) has c' p.pid i parent [] (confined p path)
          ]
    go stops = refl
    go waits = refl
    go (ends (i, c')) =
        let k = confined-length p path in
        loop_same fuel (suc (length path)) has c' p.pid i parent [] (confined p path)
          (omega (arith, k, l)) (omega (arith, k))
