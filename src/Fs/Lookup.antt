-- ===== src/Fs/Lookup.antt =====
-- What `dirlookup` of fs.c finds in the bytes of a directory.
use dockv6_project.Base.{
  ℕ, zero, suc, ◌+◌, ◌*◌, ◌%◌, ◌^◌, ◌≤◌, ◌<◌, ◌≡◌, ◌⊎◌, inl, inr, refl, arith, sym, ap, ◌∙◌, subst,
  ◌==◌, if◌then◌else◌, ltb, ◌&&◌, not, Bool, true, false, Bool-cases, Option, none, some, List,
  FirstAt, NoneIn, ℕ_discrete,
}
use dockv6_project.Base.Int.{is_zero}
use dockv6_project.CString.{View, bytes, strncmp, next}
use dockv6_project.Fs.{Dev, Result, panics, returns, bsize}
use dockv6_project.Fs.Alloc.{Full}
use dockv6_project.Fs.Inode.{Dinode, maxfile, iblock, Io, readi, read_count}
use dockv6_project.Fs.Content.{file_byte, Foreign, Moves, Moves-refl, Moves-trans, Moves-same}
use dockv6_project.Fs.FileIo.{OpenFile, Reads, readi-ReadOf}
use dockv6_project.Fs.Dir.{
  dirsiz, dirent_size, de_inum, de_name, same_entry, read_entry, find_entry,
}

-- The entry `k` of the bytes `f`, and whether it is one of that name.
abbrev pub entry_at : (ℕ → ℕ) → ℕ → View
entry_at f k j = f (dirent_size * k + j)

abbrev pub matches : (ℕ → ℕ) → List ℕ → ℕ → Bool
matches f name k = not (de_inum (entry_at f k) == 0) && same_entry name (entry_at f k)

strncmp_same :
    (n : ℕ) (p q q' : View) → ((j : ℕ) → j < n → q j ≡ q' j) → strncmp p q n ≡ strncmp p q' n
unfolding strncmp
strncmp_same zero p q q' e = refl
strncmp_same (suc n) p q q' e =
    let here = e 0 (omega arith) in
    let rest = strncmp_same n (next p) (next q) (next q') (λ j l. e (suc j) (omega arith)) in
    rw (here, rest) refl

same_entry_bytes :
    (name : List ℕ) (v w : View)
    → ((j : ℕ) → j < dirent_size → v j ≡ w j)
    → same_entry name v ≡ same_entry name w
unfolding same_entry
same_entry_bytes name v w e =
    ap is_zero
      (strncmp_same dirsiz (bytes name) (de_name v) (de_name w) (λ j l. e (2 + j) (omega arith)))

-- The directory's own inode is the file it was.
OpenFile-Moves :
    (d : Dev) (inum : ℕ) (ip : Dinode) (f : ℕ → ℕ) (ip' : Dinode) (d' : Dev)
    → OpenFile d inum ip
    → Moves d ip f ip' d'
    → OpenFile d' inum ip'
OpenFile-Moves d inum ip f ip' d' op m = record {
  ok = m.ok;
  node = subst (λ s. Foreign d' ip' (iblock s inum)) (sym m.grows.same_sb) (m.foreign _ op.node).0;
  no_dev = rw m.same_type op.no_dev;
  bound = rw m.same_size op.bound;
}

-- A directory whose bytes are `f`: whole entries, in a file that is open.
pub record DirOf (d : Dev) (inum : ℕ) (ip : Dinode) (f : ℕ → ℕ) : Type 0 where
  pub is_open : OpenFile d inum ip
  pub whole : ip.size % dirent_size ≡ 0
  pub holds : (o : ℕ) → o < maxfile * bsize → file_byte d ip o ≡ f o

-- One entry read.
record EntryRead (d : Dev) (inum : ℕ) (ip : Dinode) (f : ℕ → ℕ) (k : ℕ) (v : View) (ip' : Dinode)
    (d' : Dev) : Type 0 where
  shows : (j : ℕ) → j < dirent_size → v j ≡ entry_at f k j
  moves : Moves d ip (file_byte d ip) ip' d'
  still : DirOf d' inum ip' f

abbrev EntryReads : Dev → ℕ → Dinode → (ℕ → ℕ) → ℕ → Result (View × Dinode × Dev) → Type 0
EntryReads d inum ip f k (panics d') = Full d'
EntryReads d inum ip f k (returns r) = EntryRead d inum ip f k r.0 r.1 r.2

abbrev result_of : Io (ℕ × View) → ℕ × View
result_of (Io.done r) = r
result_of _ = (0, λ _. 0)

read_entry-EntryReads :
    (has : ℕ → Bool) (d : Dev) (inum : ℕ) (ip : Dinode) (f : ℕ → ℕ) (k : ℕ)
    → DirOf d inum ip f
    → dirent_size * k < ip.size
    → EntryReads d inum ip f k (read_entry has d ip (dirent_size * k))
unfolding read_entry
read_entry-EntryReads has d inum ip f k o l =
    let off = dirent_size * k in
    let fits : off + dirent_size ≤ ip.size = omega (arith, o.whole) in
    let count : read_count ip off dirent_size ≡ dirent_size = ground (arith, fits) in
    let small : off + dirent_size < 2 ^ 32 = omega (arith, o.is_open.bound) in
    go fits (readi has d ip (λ _. 0) off dirent_size) (
      subst (λ m. Reads d ip (λ _. 0) off m (readi has d ip (λ _. 0) off dirent_size)) count
        (readi-ReadOf has d inum ip (λ _. 0) off dirent_size o.is_open (omega arith) small))
  where
    go :
        dirent_size * k + dirent_size ≤ ip.size
        → (q : Result (Io (ℕ × View) × Dinode × Dev))
        → Reads d ip (λ _. 0) (dirent_size * k) dirent_size q
        → EntryReads d inum ip f k (elim q [
          | panics d' ↦ panics d'
          | returns (Io.done r, ip', d') ↦
              if r.0 == dirent_size then returns (r.1, ip', d') else panics d'
          | returns (Io.fails, ip', d') ↦ panics d'
          | returns (Io.device major n, ip', d') ↦ panics d'
        ])
    go fits (panics d') w = w.0
    go fits (returns (Io.fails, ip', d')) w = absurd (ground (arith, w.result))
    go fits (returns (Io.device major n, ip', d')) w = absurd (ground (arith, w.result))
    go fits (returns (Io.done r, ip', d')) w =
        let count : r.0 ≡ dirent_size = ap (λ q. (result_of q).0) w.result in
        let view : r.1 ≡ w.buffer = ap (λ q. (result_of q).1) w.result in
        let all : (r.0 == dirent_size) ≡ true = ground (arith, count) in
        rw all (record {
          shows = λ j lj.
              ap (λ v. v j) view
              ∙ w.holds j
              ∙ ground (arith, lj)
              ∙ o.holds (dirent_size * k + j) (omega (arith, o.is_open.bound));
          moves = w.moves;
          still = record {
            is_open = OpenFile-Moves d inum ip _ ip' d' o.is_open w.moves;
            whole = rw w.moves.same_size o.whole;
            holds = λ p lp. w.moves.bytes p lp ∙ o.holds p lp;
          };
        })

-- What the loop of `dirlookup` finds from entry `k` on, of `n`: nothing, or the first of that name.
pub record Lookup (d : Dev) (inum : ℕ) (ip : Dinode) (f : ℕ → ℕ) (name : List ℕ) (n k : ℕ)
    (r : Option (ℕ × ℕ)) (ip' : Dinode) (d' : Dev) : Type 0 where
  pub result :
      ((r ≡ none) × NoneIn n k (matches f name))
      ⊎ ((j : ℕ) × (r ≡ some (dirent_size * j, de_inum (entry_at f j)))
          × FirstAt n k (matches f name) j)
  pub moves : Moves d ip (file_byte d ip) ip' d'

abbrev pub Lookups :
    Dev → ℕ → Dinode → (ℕ → ℕ) → List ℕ → ℕ → ℕ → Result (Option (ℕ × ℕ) × Dinode × Dev) → Type 0
Lookups d inum ip f name n k (panics d') = Full d'
Lookups d inum ip f name n k (returns r) = Lookup d inum ip f name n k r.0 r.1 r.2

-- From entry `k + 1` on, after entry `k` has not matched.
lookup_next :
    (d : Dev) (inum : ℕ) (ip : Dinode) (f : ℕ → ℕ) (name : List ℕ) (n k : ℕ) (ip1 : Dinode)
    (d1 : Dev) (r : Result (Option (ℕ × ℕ) × Dinode × Dev))
    → matches f name k ≡ false
    → Moves d ip (file_byte d ip) ip1 d1
    → Lookups d1 inum ip1 f name n (suc k) r
    → Lookups d inum ip f name (suc n) k r
lookup_next d inum ip f name n k ip1 d1 (panics d') miss m w = w
lookup_next d inum ip f name n k ip1 d1 (returns r) miss m w = record {
  result = elim w.result [
    | inl (e, clear) ↦ inl (e, λ j lo hi. earlier j lo (λ h. clear j h (omega arith)))
    | inr (j, e, at) ↦ inr (
      j,
      e,
      record {
        above = omega (arith, at.above);
        below = omega (arith, at.below);
        passes = at.passes;
        earlier = λ i lo hi. earlier i lo (λ h. at.earlier i h hi);
      },
    )
  ];
  moves = Moves-same d ip _ _ r.1 r.2 m.bytes (Moves-trans d ip _ ip1 d1 _ r.1 r.2 m w.moves);
}
  where
    earlier : (j : ℕ) → k ≤ j → (suc k ≤ j → matches f name j ≡ false) → matches f name j ≡ false
    earlier j lo h = elim (ℕ_discrete k j) [
      | yes e ↦ subst (λ i. matches f name i ≡ false) e miss
      | no ne ↦ h (omega arith)
    ]

matches_bytes :
    (f : ℕ → ℕ) (name : List ℕ) (k : ℕ) (v : View)
    → ((j : ℕ) → j < dirent_size → v j ≡ entry_at f k j)
    → (not (de_inum v == 0) && same_entry name v) ≡ matches f name k
matches_bytes f name k v e =
    let a = e 0 (omega arith) in
    let b = e 1 (omega arith) in
    let c = same_entry_bytes name v (entry_at f k) e in rw (a, b, c) refl

inum_bytes :
    (f : ℕ → ℕ) (k : ℕ) (v : View)
    → ((j : ℕ) → j < dirent_size → v j ≡ entry_at f k j)
    → de_inum v ≡ de_inum (entry_at f k)
inum_bytes f k v e = let a = e 0 (omega arith) in let b = e 1 (omega arith) in rw (a, b) refl

-- The loop of `dirlookup` finds the first entry in use whose name is the one asked for, in the 14
-- bytes that names are compared in, or finds that there is none. No byte of the directory or of
-- another file changes. Otherwise the disk was full. The directory consists of whole entries.
pub find_entry-Lookups :
    (n : ℕ) (has : ℕ → Bool) (d : Dev) (inum : ℕ) (ip : Dinode) (f : ℕ → ℕ) (name : List ℕ) (k : ℕ)
    → DirOf d inum ip f
    → ip.size ≡ dirent_size * (k + n)
    → Lookups d inum ip f name n k (find_entry n has d ip name (dirent_size * k))
unfolding find_entry
find_entry-Lookups zero has d inum ip f name k o e = record {
  result = inl (refl, λ j lo hi. absurd (omega arith));
  moves = Moves-same d ip _ _ ip d (λ p lp. refl) (Moves-refl d ip o.is_open.ok);
}
find_entry-Lookups (suc n) has d inum ip f name k o e =
    let more : ltb (dirent_size * k) ip.size ≡ true = ground (arith, e) in
    let l : dirent_size * k < ip.size = omega (arith, e) in
    rw more (
      go (read_entry has d ip (dirent_size * k)) (read_entry-EntryReads has d inum ip f k o l)
        (λ d' ip' o' e'.
          subst (λ x. Lookups d' inum ip' f name n (suc k) (find_entry n has d' ip' name x))
            (omega arith) (find_entry-Lookups n has d' inum ip' f name (suc k) o' e')))
  where
    go :
        (q : Result (View × Dinode × Dev))
        → EntryReads d inum ip f k q
        → ((d' : Dev) (ip' : Dinode)
            → DirOf d' inum ip' f
            → ip'.size ≡ dirent_size * (suc k + n)
            → Lookups d' inum ip' f name n
                (suc k)
                (find_entry n has d' ip' name (dirent_size * k + dirent_size)))
        → Lookups d inum ip f name (suc n) k (elim q [
          | panics d' ↦ panics d'
          | returns r ↦
              if not (de_inum r.0 == 0) && same_entry name r.0
              then returns (some (dirent_size * k, de_inum r.0), r.1, r.2)
              else find_entry n has r.2 r.1 name (dirent_size * k + dirent_size)
        ])
    go (panics d') w rest = w
    go (returns r) w rest =
        let same = matches_bytes f name k r.0 w.shows in
        elim (Bool-cases (matches f name k)) [
          | inl hit ↦
              let test = same ∙ hit in
              rw test (record {
                result = inr (
                  k,
                  ap (λ (x : ℕ). some (dirent_size * k, x)) (inum_bytes f k r.0 w.shows),
                  record {
                    above = omega arith;
                    below = omega arith;
                    passes = hit;
                    earlier = λ j lo hi. absurd (omega arith);
                  },
                );
                moves = w.moves;
              })
          | inr miss ↦
              let test = same ∙ miss in
              rw test (
                lookup_next d inum ip f name n k r.1 r.2 _ miss w.moves
                  (rest r.2 r.1 w.still (w.moves.same_size ∙ e ∙ omega arith)))
        ]
