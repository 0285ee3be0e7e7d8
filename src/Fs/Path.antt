-- ===== src/Fs/Path.antt =====
-- fs.c: path names. A path and a name are the lists of their bytes before the NUL; a name is cut to
-- DIRSIZ bytes. Of the calling process `Caller` has what `namex` reads.
use dockv6_project.Base.{
  ℕ, zero, suc, ◌==◌, if◌then◌else◌, ◌&&◌, not, Bool, true, false, Option, none, some, List, [],
  ◌∷◌,
}
use dockv6_project.Fs.Inode.{t_dir}
use dockv6_project.Fs.Icache.{
  Cache, Run, stops, waits, ends, referenced, iget, idup, ilock, iunlock, iput, iunlockput,
}
use dockv6_project.Fs.Dir.{dirsiz, dirlookup}

-- '/'
abbrev pub slash : ℕ
slash = 47

-- `while (*path == '/') path++;`
unfoldable pub skip_slashes : List ℕ → List ℕ
skip_slashes [] = []
skip_slashes (c ∷ s) = let rest = skip_slashes s in if c == slash then rest else c ∷ s

-- `while (*path != '/' && *path != 0) path++;`: what is passed over, and what is left.
unfoldable pub element : List ℕ → List ℕ
element [] = []
element (c ∷ s) = let rest = element s in if c == slash then [] else c ∷ rest

unfoldable pub skip_element : List ℕ → List ℕ
skip_element [] = []
skip_element (c ∷ s) = let rest = skip_element s in if c == slash then c ∷ s else rest

-- What `name` holds: the element, or its first DIRSIZ bytes.
unfoldable pub take_name : ℕ → List ℕ → List ℕ
take_name zero s = []
take_name (suc n) [] = []
take_name (suc n) (c ∷ s) = c ∷ take_name n s

-- The name and the rest of the path; `none` is the return of 0.
unfoldable pub skipelem : List ℕ → Option (List ℕ × List ℕ)
unfolding skip_slashes element skip_element take_name
skipelem path = elim (skip_slashes path) [
  | [] ↦ none
  | c ∷ s ↦ some (take_name dirsiz (element (c ∷ s)), skip_slashes (skip_element (c ∷ s)))
]

-- Of `struct proc`: the current directory, and the root of its container, if it is in one.
pub record Caller : Type 0 where
  pub pid : ℕ
  pub cwd : ℕ
  pub root : Option ℕ

abbrev pub is_absolute : List ℕ → Bool
is_absolute [] = false
is_absolute (c ∷ s) = c == slash

-- `strncmp(path, "..", sizeof("..")) == 0`, which compares the NUL too.
abbrev pub is_dotdot : List ℕ → Bool
is_dotdot [] = false
is_dotdot (a ∷ []) = false
is_dotdot (a ∷ b ∷ []) = (a == 46) && (b == 46)
is_dotdot (a ∷ b ∷ c ∷ s) = false

-- The path that `namex` goes on with: in a container, ".." is overwritten with ".".
abbrev pub confined : Caller → List ℕ → List ℕ
confined p path = elim p.root [ none ↦ path | some r ↦ if is_dotdot path then 46 ∷ [] else path ]

-- Where `namex` starts; ROOTDEV and ROOTINO are 1.
unfoldable pub start : Cache → Caller → List ℕ → Run (ℕ × Cache)
start c p path =
    if is_absolute path
    then elim p.root [ none ↦ iget c 1 1 | some r ↦ ends (r, idup c r) ]
    else ends (p.cwd, idup c p.cwd)

-- What `namex` returns: the inode, or 0, and the last name that `skipelem` has copied.
abbrev pub Named : Type 0
Named = Option ℕ × List ℕ × Cache

-- `iunlockput(ip); return 0;`
unfoldable pub give_up : Cache → ℕ → ℕ → List ℕ → Run Named
give_up c pid i name = elim (iunlockput c pid i) [
  | stops ↦ stops
  | waits ↦ waits
  | ends c' ↦ ends (none, name, c')
]

abbrev pub is_empty : List ℕ → Bool
is_empty [] = true
is_empty (c ∷ s) = false

-- What one round of the loop of `namex` comes to: it is over, or goes on in the next directory.
pub data Round : Type 0 where
  over : Run Named → Round
  next_dir : ℕ → Cache → Round

-- The round from `dirlookup` on, with the directory `i` locked.
unfoldable pub look : (ℕ → Bool) → Cache → ℕ → ℕ → List ℕ → Round
unfolding give_up
look has c pid i name = elim (dirlookup has c i name) [
  | stops ↦ over stops
  | waits ↦ over waits
  | ends (none, c') ↦ over (give_up c' pid i name)
  | ends (some (next, off), c') ↦
      if not (referenced (c'.inode next))
      then over (give_up c' pid i name)
      else elim (iunlockput c' pid i) [
        | stops ↦ over stops
        | waits ↦ over waits
        | ends c2 ↦ next_dir next c2
      ]
]

unfoldable pub stop_early : Cache → ℕ → ℕ → List ℕ → Run Named
stop_early c pid i name = elim (iunlock c pid i) [
  | stops ↦ stops
  | waits ↦ waits
  | ends c' ↦ ends (some i, name, c')
]

unfoldable pub one_round : (ℕ → Bool) → Cache → ℕ → ℕ → Bool → List ℕ → List ℕ → Round
unfolding look give_up stop_early
one_round has c pid i parent name rest =
    if not (referenced (c.inode i)) then over (ends (none, name, c)) else elim (ilock c pid i) [
      | stops ↦ over stops
      | waits ↦ over waits
      | ends c' ↦
          if not ((c'.inode i).node.itype == t_dir)
          then over (give_up c' pid i name)
          else if parent && is_empty rest
          then over (stop_early c' pid i name)
          else look has c' pid i name
    ]

-- `if (nameiparent) { iput(ip); return 0; } return ip;`
unfoldable pub at_end : Cache → ℕ → Bool → List ℕ → Run Named
at_end c i parent name =
    if parent
    then elim (iput c i) [ stops ↦ stops | waits ↦ waits | ends c' ↦ ends (none, name, c') ]
    else ends (some i, name, c)

-- `while ((path = skipelem(path, name)) != 0)`
unfoldable pub namex_loop : ℕ → (ℕ → Bool) → Cache → ℕ → ℕ → Bool → List ℕ → List ℕ → Run Named
unfolding skipelem one_round at_end
namex_loop zero has c pid i parent name path = at_end c i parent name
namex_loop (suc fuel) has c pid i parent name path = elim (skipelem path) [
  | none ↦ at_end c i parent name
  | some (name', rest) ↦ elim (one_round has c pid i parent name' rest) [
    | over r ↦ r
    | next_dir next c' ↦ namex_loop fuel has c' pid next parent name' rest
  ]
]

-- `fuel` is above the number of elements.
unfoldable pub namex : ℕ → (ℕ → Bool) → Cache → Caller → Bool → List ℕ → Run Named
unfolding start namex_loop
namex fuel has c p parent path = elim (start c p (confined p path)) [
  | stops ↦ stops
  | waits ↦ waits
  | ends (i, c') ↦ namex_loop fuel has c' p.pid i parent [] (confined p path)
]

abbrev pub namei : ℕ → (ℕ → Bool) → Cache → Caller → List ℕ → Run Named
namei fuel has c p path = namex fuel has c p false path

abbrev pub nameiparent : ℕ → (ℕ → Bool) → Cache → Caller → List ℕ → Run Named
nameiparent fuel has c p path = namex fuel has c p true path
