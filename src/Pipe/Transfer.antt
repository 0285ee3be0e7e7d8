-- ===== src/Pipe/Transfer.antt =====
-- `pipewrite` and `piperead` of pipe.c on the bytes in the pipe: a queue of at most 512 bytes.
use dockv6_project.Base.{
  ℕ, zero, suc, ◌+◌, ◌%◌, ◌^◌, ◌<◌, ◌≡◌, ◌≢◌, ◌⊎◌, inl, inr, refl, arith, Bool, true, false, List,
  [], ◌∷◌, ◌++◌, ap, Bool-cases, ◌||◌, not, ◌&&◌, subst,
}
use mathlib.Core.List.{append-nil, append_assoc}
use Prim.Native.Nat.{min}
use dockv6_project.Pipe.{
  Pipe, pipesize, is_full, is_empty, put_byte, pipewrite, WriteEnd, written, refused, sleeps,
  copy_out, piperead, ReadEnd, got, interrupted, waits,
}
use dockv6_project.Pipe.Contents.{
  length, Holds, put_byte-Holds, is_full_iff, is_empty_iff, take_byte-Holds,
}

-- How a write of `bs` to a pipe that holds `xs` ends.
abbrev pub Writes : Pipe → Bool → List ℕ → List ℕ → WriteEnd → Type 0
Writes p killed xs bs (written p') = Holds p' (xs ++ bs) × (p'.readopen ≡ p.readopen)
Writes p killed xs bs (refused p') =
    ((p.readopen ≡ false) ⊎ (killed ≡ true))
    × ((ys zs : List ℕ) × (bs ≡ ys ++ zs) × Holds p' (xs ++ ys) × (length (xs ++ ys) ≡ pipesize))
Writes p killed xs bs (sleeps p' rest) =
    (p.readopen ≡ true)
    × (killed ≡ false)
    × (rest ≢ [])
    × ((ys : List ℕ) × (bs ≡ ys ++ rest) × Holds p' (xs ++ ys) × (length (xs ++ ys) ≡ pipesize))

Writes-cons :
    (p : Pipe) (killed : Bool) (xs bs : List ℕ) (b : ℕ) (r : WriteEnd)
    → Writes (put_byte p b) killed (xs ++ b ∷ []) bs r
    → Writes p killed xs (b ∷ bs) r
Writes-cons p killed xs bs b (written p') w =
    (subst (λ l. Holds p' l) (append_assoc xs (b ∷ []) bs) w.0, w.1)
Writes-cons p killed xs bs b (refused p') (why, (ys, zs, e, h, l)) = (
  why,
  (
    b ∷ ys,
    zs,
    ap (λ s. b ∷ s) e,
    subst (λ s. Holds p' s) (append_assoc xs (b ∷ []) ys) h,
    subst (λ s. length s ≡ pipesize) (append_assoc xs (b ∷ []) ys) l,
  ),
)
Writes-cons p killed xs bs b (sleeps p' rest) (o, k, ne, (ys, e, h, l)) = (
  o,
  k,
  ne,
  (
    b ∷ ys,
    ap (λ s. b ∷ s) e,
    subst (λ s. Holds p' s) (append_assoc xs (b ∷ []) ys) h,
    subst (λ s. length s ≡ pipesize) (append_assoc xs (b ∷ []) ys) l,
  ),
)

cons-ne-nil : (b : ℕ) (bs : List ℕ) → b ∷ bs ≢ []
cons-ne-nil b bs e = cc

-- A write to a pipe puts its bytes behind those in the pipe, in order. It returns when all are
-- written. If the pipe is full before that, it is refused where the read end is closed or the
-- writer was killed, and otherwise sleeps with the bytes that are still to be written; what it has
-- written stays in the pipe.
pub pipewrite-Writes :
    (p : Pipe) (killed : Bool) (xs bs : List ℕ)
    → Holds p xs
    → Writes p killed xs bs (pipewrite p killed bs)
unfolding pipewrite
pipewrite-Writes p killed xs [] h = (rw (append-nil xs) h, refl)
pipewrite-Writes p killed xs (b ∷ bs) h = elim (Bool-cases (is_full p)) [
  | inr f ↦
      let l : length xs < pipesize = room f in
      rw (f, pipewrite)
        (Writes-cons p killed xs bs b (pipewrite (put_byte p b) killed bs)
          (pipewrite-Writes (put_byte p b) killed (xs ++ b ∷ []) bs (put_byte-Holds p b xs h l)))
  | inl t ↦
      let l = (is_full_iff p xs h).0 t in
      elim (Bool-cases (not p.readopen || killed)) [
        | inl bad ↦
            rw (t, bad, pipewrite)
              (ground arith, ([], b ∷ bs, refl, rw (append-nil xs) h, rw (append-nil xs) l))
        | inr good ↦
            rw (t, good, pipewrite)
              (
                ground arith,
                ground arith,
                cons-ne-nil b bs,
                ([], refl, rw (append-nil xs) h, rw (append-nil xs) l),
              )
      ]
]
  where
    room : is_full p ≡ false → length xs < pipesize
    room f = ground (arith, h.fits, (is_full_iff p xs h).1)

-- What the copy loop of `piperead` takes out of a pipe that holds `xs`.
abbrev pub Takes : ℕ → List ℕ → List ℕ × Pipe → Type 0
Takes n xs r =
    (rest : List ℕ) × (xs ≡ r.0 ++ rest) × Holds r.1 rest × (length r.0 ≡ min n (length xs))

copy_out-Takes : (n : ℕ) (p : Pipe) (xs : List ℕ) → Holds p xs → Takes n xs (copy_out n p)
unfolding copy_out
copy_out-Takes zero p xs h = (xs, refl, h, omega arith)
copy_out-Takes (suc n) p [] h =
    let e = (is_empty_iff p [] h).1 refl in rw (e, copy_out) ([], refl, h, omega arith)
copy_out-Takes (suc n) p (x ∷ xs) h = elim (Bool-cases (is_empty p)) [
  | inl t ↦ absurd (omega (arith, (is_empty_iff p (x ∷ xs) h).0 t))
  | inr f ↦
      let p1 : Pipe = record p { nread = (p.nread + 1) % 2 ^ 32 } in
      let (rest, e, h', l) = copy_out-Takes n p1 xs (take_byte-Holds p x xs h) in
      rw (f, h.window.0, copy_out) (rest, ap (λ s. x ∷ s) e, h', omega (arith, l))
]

nil_of_length : (xs : List ℕ) → length xs ≡ 0 → xs ≡ []
nil_of_length [] e = refl
nil_of_length (x ∷ xs) e = absurd (omega arith)

-- How a read of up to `n` bytes from a pipe that holds `xs` ends.
abbrev pub Reads : Pipe → Bool → ℕ → List ℕ → ReadEnd → Type 0
Reads p killed n xs (got bs p') = ((xs ≢ []) ⊎ (p.writeopen ≡ false)) × Takes n xs (bs, p')
Reads p killed n xs interrupted = (xs ≡ []) × (p.writeopen ≡ true) × (killed ≡ true)
Reads p killed n xs waits = (xs ≡ []) × (p.writeopen ≡ true) × (killed ≡ false)

-- A read takes the oldest bytes out of the pipe, in order: as many as it has room for or as there
-- are, and the pipe keeps the rest. It waits, or is refused to a killed reader, exactly when the
-- pipe is empty and its write end is open.
pub piperead-Reads :
    (p : Pipe) (killed : Bool) (n : ℕ) (xs : List ℕ)
    → Holds p xs
    → Reads p killed n xs (piperead p killed n)
unfolding piperead
piperead-Reads p killed n xs h = elim (Bool-cases (is_empty p && p.writeopen)) [
  | inl t ↦
      let empty : xs ≡ [] = nil_of_length xs ((is_empty_iff p xs h).0 (ground arith)) in
      elim (Bool-cases killed) [
        | inl dead ↦ rw (t, dead, piperead) (empty, ground arith, refl)
        | inr live ↦ rw (t, live, piperead) (empty, ground arith, refl)
      ]
  | inr f ↦ rw (f, piperead) (why f, copy_out-Takes n p xs h)
]
  where
    why : (is_empty p && p.writeopen) ≡ false → (xs ≢ []) ⊎ (p.writeopen ≡ false)
    why f = elim (Bool-cases p.writeopen) [
      | inr closed ↦ inr closed
      | inl open_end ↦ inl (λ e. not_empty open_end f (ap length e))
    ]
      where
        not_empty : p.writeopen ≡ true → (is_empty p && p.writeopen) ≡ false → length xs ≢ 0
        not_empty o g z = ground (arith, (is_empty_iff p xs h).1 z)
