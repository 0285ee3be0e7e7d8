-- ===== src/Files/Sharing.antt =====
-- An open file of file.c lives as long as a descriptor shares it.
use dockv6_project.Base.{
  ap, sym, ℕ, zero, suc, ◌+◌, ◌^◌, ◌<◌, ◌≡◌, refl, arith, none, some, ◌∙◌, Option, true, false, ltb,
  update, fun_ext,
}
use dockv6_project.Kernel.{dec32}
use dockv6_project.Files.{
  File, FileType, fd_none, fd_pipe, fd_inode, Files, filedup, fileclose, Closed, panicked, shared,
  closes_pipe, puts_inode, freed, after_release,
}

-- `n` more descriptors share the file.
unfoldable pub dups : ℕ → Files → ℕ → Option Files
dups zero t i = some t
dups (suc n) t i = elim (filedup t i) [ none ↦ none | some t' ↦ dups n t' i ]

-- The table when all of them are closed again; `none` when a close panics or is the last one.
unfoldable pub closes : ℕ → Files → ℕ → Option Files
closes zero t i = some t
closes (suc n) t i = elim (fileclose t i) [
  | panicked ↦ none
  | shared t' ↦ closes n t' i
  | closes_pipe p w t' ↦ none
  | puts_inode ip t' ↦ none
  | freed t' ↦ none
]

abbrev pub with_ref : Files → ℕ → ℕ → Files
with_ref t i r = update t i (record (t i) { ref = r })

dup_step :
    (t : Files) (i r : ℕ)
    → 0 < r
    → r + 1 < 2 ^ 31
    → filedup (with_ref t i r) i ≡ some (with_ref t i (r + 1))
unfolding filedup
dup_step t i r pos_ref small =
    let counted : ltb ((with_ref t i r) i).ref 1 ≡ false = ground arith in
    rw (counted, filedup) (ap some (fun_ext (λ j. ground arith)))

close_step :
    (t : Files) (i r : ℕ)
    → 0 < r
    → r + 1 < 2 ^ 31
    → fileclose (with_ref t i (r + 1)) i ≡ shared (with_ref t i r)
unfolding fileclose
close_step t i r pos_ref small =
    let counted : ltb ((with_ref t i (r + 1)) i).ref 1 ≡ false = ground arith in
    let more : ltb 0 (dec32 ((with_ref t i (r + 1)) i).ref) ≡ true = ground arith in
    rw (counted, more, fileclose) (ap shared (fun_ext (λ j. ground arith)))

dups-with_ref :
    (n : ℕ) (t : Files) (i r : ℕ)
    → 0 < r
    → r + n < 2 ^ 31
    → dups n (with_ref t i r) i ≡ some (with_ref t i (r + n))
unfolding dups
dups-with_ref zero t i r pos_ref small = ap (λ x. some (with_ref t i x)) (omega arith)
dups-with_ref (suc n) t i r pos_ref small =
    rw (dup_step t i r pos_ref (omega arith), dups)
      (dups-with_ref n t i (r + 1) (omega arith) (omega arith)
        ∙ ap (λ x. some (with_ref t i x)) (omega arith))

closes-with_ref :
    (n : ℕ) (t : Files) (i r : ℕ)
    → 0 < r
    → r + n < 2 ^ 31
    → closes n (with_ref t i (r + n)) i ≡ some (with_ref t i r)
unfolding closes
closes-with_ref zero t i r pos_ref small = ap (λ x. some (with_ref t i x)) (omega arith)
closes-with_ref (suc n) t i r pos_ref small =
    let shift : r + suc n ≡ r + n + 1 = omega arith in
    rw (shift, close_step t i (r + n) (omega arith) (omega arith), closes)
      (closes-with_ref n t i r pos_ref (omega arith))

-- The last close of the file `f` at entry `i`.
abbrev pub Releases : File → ℕ → Closed → Type 0
Releases f i panicked = ⊥
Releases f i (shared t) = ⊥
Releases f i (closes_pipe p w t) =
    (f.type ≡ fd_pipe) × (p ≡ f.pipe) × (w ≡ f.writable) × ((t i).ref ≡ 0)
Releases f i (puts_inode ip t) = (f.type ≡ fd_inode) × (ip ≡ f.ip) × ((t i).ref ≡ 0)
Releases f i (freed t) = (f.type ≡ fd_none) × ((t i).ref ≡ 0)

after_release-Releases :
    (f ff : File) (i : ℕ) (t : Files)
    → ff.type ≡ f.type
    → ff.pipe ≡ f.pipe
    → ff.writable ≡ f.writable
    → ff.ip ≡ f.ip
    → (t i).ref ≡ 0
    → Releases f i (after_release ff t)
unfolding after_release
after_release-Releases f ff i t ty p w ip z = by_type ff.type refl
  where
    by_type : (x : FileType) → ff.type ≡ x → Releases f i (after_release ff t)
    by_type fd_none e = rw (e, after_release) (sym ty ∙ e, z)
    by_type fd_pipe e = rw (e, after_release) (sym ty ∙ e, p, w, z)
    by_type fd_inode e = rw (e, after_release) (sym ty ∙ e, ip, z)

last_close : (t : Files) (i : ℕ) → Releases (t i) i (fileclose (with_ref t i 1) i)
unfolding fileclose
last_close t i =
    let t1 = with_ref t i 1 in
    let counted : ltb (t1 i).ref 1 ≡ false = ground arith in
    let none_left : ltb 0 (dec32 (t1 i).ref) ≡ false = ground arith in
    let ff = record (t1 i) { ref = dec32 (t1 i).ref } in
    rw (counted, none_left, fileclose)
      (after_release-Releases (t i) ff i (update t1 i (record ff { ref = 0; type = fd_none }))
        (ground arith) (ground arith) (ground arith) (ground arith) (ground arith))

-- A file that one descriptor has, shared `n` times more and closed `n` times, is as it was; the close
-- after that is the last one, and only that close frees the entry and closes the pipe or puts the
-- inode of the file.
pub dups-closes :
    (n : ℕ) (t : Files) (i : ℕ)
    → n + 1 < 2 ^ 31
    → let t1 = with_ref t i 1 in
      ((t' : Files) × (dups n t1 i ≡ some t') × (closes n t' i ≡ some t1))
      × Releases (t i) i (fileclose t1 i)
dups-closes n t i small = (
  (
    with_ref t i (1 + n),
    dups-with_ref n t i 1 (omega arith) (omega arith),
    closes-with_ref n t i 1 (omega arith) (omega arith),
  ),
  last_close t i,
)
