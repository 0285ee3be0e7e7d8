-- ===== src/Fs/Elements.antt =====
-- `skipelem` of fs.c against the list of a path's elements.
use dockv6_project.Base.{
  ℕ, ◌≤◌, ◌<◌, ◌≡◌, refl, arith, sym, ap, ◌∙◌, ◌==◌, if◌then◌else◌, true, false, Bool-cases, Option,
  none, some, List, [], ◌∷◌, inl, inr,
}
use dockv6_project.Pipe.Contents.{length}
use dockv6_project.Fs.Dir.{dirsiz}
use dockv6_project.Fs.Path.{
  slash, skip_slashes, element, skip_element, take_name, skipelem, is_absolute,
}

-- The elements of a path, its slashes left out: an element ends at a slash or at the end.
abbrev cons_head : ℕ → List (List ℕ) → List (List ℕ)
cons_head c [] = (c ∷ []) ∷ []
cons_head c (e ∷ es) = (c ∷ e) ∷ es

unfoldable pub elements : List ℕ → List (List ℕ)
elements [] = []
elements (c ∷ s) =
    let rest = elements s in
    if c == slash then rest else if is_absolute s then (c ∷ []) ∷ rest else cons_head c rest

elements-skip_slashes : (s : List ℕ) → elements (skip_slashes s) ≡ elements s
unfolding elements skip_slashes
elements-skip_slashes [] = refl
elements-skip_slashes (c ∷ s) = elim (Bool-cases (c == slash)) [
  | inl yes_ ↦ rw yes_ (elements-skip_slashes s)
  | inr no_ ↦ rw no_ (rw no_ refl)
]

-- The steps of the functions at a byte that is no slash.
elements_in :
    (c : ℕ) (s : List ℕ)
    → (c == slash) ≡ false
    → is_absolute s ≡ false
    → elements (c ∷ s) ≡ cons_head c (elements s)
unfolding elements
elements_in c s h n = rw (h, n) refl

elements_last :
    (c : ℕ) (s : List ℕ)
    → (c == slash) ≡ false
    → is_absolute s ≡ true
    → elements (c ∷ s) ≡ (c ∷ []) ∷ elements s
unfolding elements
elements_last c s h n = rw (h, n) refl

element_in : (c : ℕ) (s : List ℕ) → (c == slash) ≡ false → element (c ∷ s) ≡ c ∷ element s
unfolding element
element_in c s h = rw h refl

skip_in : (c : ℕ) (s : List ℕ) → (c == slash) ≡ false → skip_element (c ∷ s) ≡ skip_element s
unfolding skip_element
skip_in c s h = rw h refl

element_end : (s : List ℕ) → is_absolute s ≡ true → element s ≡ []
unfolding element
element_end [] h = refl
element_end (c ∷ s) h = rw h refl

skip_end : (s : List ℕ) → is_absolute s ≡ true → skip_element s ≡ s
unfolding skip_element
skip_end [] h = refl
skip_end (c ∷ s) h = rw h refl

single :
    (c : ℕ)
    → (c == slash) ≡ false
    → elements (c ∷ []) ≡ (c ∷ element []) ∷ elements (skip_element [])
unfolding elements element skip_element
single c h = rw h refl

no_elements : elements [] ≡ []
unfolding elements
no_elements = refl

-- A path that starts with an element.
elements_first :
    (c : ℕ) (s : List ℕ)
    → (c == slash) ≡ false
    → elements (c ∷ s) ≡ element (c ∷ s) ∷ elements (skip_element (c ∷ s))
elements_first c [] h = rw (element_in c [] h, skip_in c [] h) (single c h)
elements_first c (d ∷ t) h = elim (Bool-cases (d == slash)) [
  | inl end ↦
      rw
        (element_in c (d ∷ t) h, skip_in c (d ∷ t) h, element_end (d ∷ t) end, skip_end (d ∷ t) end)
        (elements_last c (d ∷ t) h end)
  | inr more ↦
      rw (element_in c (d ∷ t) h, skip_in c (d ∷ t) h)
        (elements_in c (d ∷ t) h more ∙ ap (cons_head c) (elements_first d t more))
]

skip_slashes-length : (s : List ℕ) → length (skip_slashes s) ≤ length s
unfolding skip_slashes
skip_slashes-length [] = omega arith
skip_slashes-length (c ∷ s) = elim (Bool-cases (c == slash)) [
  | inl hit ↦ rw hit (omega (arith, skip_slashes-length s))
  | inr miss ↦ rw miss (omega arith)
]

skip_element-length : (s : List ℕ) → length (skip_element s) ≤ length s
unfolding skip_element
skip_element-length [] = omega arith
skip_element-length (c ∷ s) = elim (Bool-cases (c == slash)) [
  | inl hit ↦ rw hit (omega arith)
  | inr miss ↦ rw miss (omega (arith, skip_element-length s))
]

-- No slash stands in front.
skip_slashes-front : (s : List ℕ) → is_absolute (skip_slashes s) ≡ false
unfolding skip_slashes
skip_slashes-front [] = refl
skip_slashes-front (c ∷ s) = elim (Bool-cases (c == slash)) [
  | inl hit ↦ rw hit (skip_slashes-front s)
  | inr miss ↦ rw miss miss
]

-- What `skipelem` gives for a path: its first element, cut to DIRSIZ bytes, and the others.
abbrev pub Steps : List ℕ → Option (List ℕ × List ℕ) → Type 0
Steps path none = elements path ≡ []
Steps path (some r) =
    (first : List ℕ) × (elements path ≡ first ∷ elements r.1)
    × (r.0 ≡ take_name dirsiz first)
    × (is_absolute r.1 ≡ false)
    × (length r.1 < length path)

-- `skipelem` takes the first element off a path: the name is its first 14 bytes, the rest has the
-- other elements, no slash in front, and is shorter than the path. It returns 0 just for a path
-- without elements.
pub skipelem-Steps : (path : List ℕ) → Steps path (skipelem path)
unfolding skipelem
skipelem-Steps path =
    go (skip_slashes path) (elements-skip_slashes path) (skip_slashes-length path)
      (skip_slashes-front path)
  where
    go :
        (s : List ℕ)
        → elements s ≡ elements path
        → length s ≤ length path
        → is_absolute s ≡ false
        → Steps path (elim s [
          | [] ↦ none
          | c ∷ s ↦ some (take_name dirsiz (element (c ∷ s)), skip_slashes (skip_element (c ∷ s)))
        ])
    go [] e l f = sym e ∙ no_elements
    go (c ∷ s) e l f =
        let rest = skip_element (c ∷ s) in
        let short = skip_slashes-length rest in
        let shorter : length rest ≤ length s = rw (skip_in c s f) (skip_element-length s) in
        (
          element (c ∷ s),
          sym e
              ∙ elements_first c s f
              ∙ ap (λ es. element (c ∷ s) ∷ es) (sym (elements-skip_slashes rest)),
          refl,
          skip_slashes-front rest,
          omega (arith, short, shorter, l),
        )
