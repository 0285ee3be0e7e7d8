-- ===== src/Mutex/Create.antt =====
-- Which mutex `mutex_create` of proc.c hands out.
use dockv6_project.Base.{
  ltb, ◌≤◌, ℕ, zero, suc, ◌+◌, ◌<◌, ◌≡◌, ◌≢◌, ◌⊎◌, inl, inr, refl, sym, arith, Option, none, some,
  ◌==◌, true, false, ◌&&◌, Bool-cases, not, is_null, same_ptr, List, find_first_cases, subst,
  ==_refl,
}
use dockv6_project.Base.Int.{ℤ, pos, negsuc}
use dockv6_project.CString.{bytes}
use dockv6_project.CString.Compare.{Agree, strncmp-Agree}
use dockv6_project.CString.Copy.{strncpy-Strncpy}
use dockv6_project.Kernel.{Kernel, Mutex, mux_maxnum}
use dockv6_project.Mutex.{
  length, name_size, same_name, Scan, shared, vacant, scan_mux, Slot, has_access, first_free,
  scan_slots, add_to_proc, fresh_mutex, setup_mutex, create_from, mutex_create,
}

-- The mutex's name begins with `name`.
abbrev pub HasName : List ℕ → Mutex → Type 0
HasName name m = Agree (bytes name) m.name (length name)

same_name-HasName : (name : List ℕ) (m : Mutex) → same_name name m ≡ true → HasName name m
unfolding same_name
same_name-HasName name m e = (strncmp-Agree (bytes name) m.name (length name)).0 e

-- What the first loop finds among the entries from `i` to `i + n`.
abbrev pub Found : ℕ → ℕ → Kernel → List ℕ → ℕ → Option ℕ → Scan → Type 0
Found n i k name cid u (shared m) =
    (m < i + n) × HasName name (k.mux m) × ((k.mux m).container_id ≡ cid)
Found n i k name cid u (vacant none) = Unit
Found n i k name cid u (vacant (some m)) =
    (u ≡ some m) ⊎ ((m < i + n) × ((k.mux m).is_alloc ≡ false))

Found-next :
    (n i : ℕ) (k : Kernel) (name : List ℕ) (cid : ℕ) (u : Option ℕ) (s : Scan)
    → Found n (suc i) k name cid u s
    → Found (suc n) i k name cid u s
Found-next n i k name cid u (shared m) f = (omega arith, f.1, f.2)
Found-next n i k name cid u (vacant none) f = tt
Found-next n i k name cid u (vacant (some m)) (inl e) = inl e
Found-next n i k name cid u (vacant (some m)) (inr f) = inr (omega arith, f.1)

Found-taken :
    (n i : ℕ) (k : Kernel) (name : List ℕ) (cid : ℕ) (u : Option ℕ) (s : Scan)
    → (k.mux i).is_alloc ≡ false
    → Found n (suc i) k name cid (some i) s
    → Found (suc n) i k name cid u s
Found-taken n i k name cid u (shared m) free f = (omega arith, f.1, f.2)
Found-taken n i k name cid u (vacant none) free f = tt
Found-taken n i k name cid u (vacant (some m)) free (inl e) =
    let same : i ≡ m = ground arith in
    inr (omega arith, subst (λ j. (k.mux j).is_alloc ≡ false) same free)
Found-taken n i k name cid u (vacant (some m)) free (inr f) = inr (omega arith, f.1)

scan_mux-Found :
    (n i : ℕ) (k : Kernel) (name : List ℕ) (cid : ℕ) (u : Option ℕ)
    → Found n i k name cid u (scan_mux n i k name cid u)
unfolding scan_mux
scan_mux-Found zero i k name cid none = tt
scan_mux-Found zero i k name cid (some m) = inl refl
scan_mux-Found (suc n) i k name cid u = elim (Bool-cases (not (k.mux i).is_alloc && is_null u)) [
  | inl t ↦
      rw (t, scan_mux)
        (Found-taken n i k name cid u (scan_mux n (suc i) k name cid (some i)) (ground arith)
          (scan_mux-Found n (suc i) k name cid (some i)))
  | inr f ↦ elim (Bool-cases (same_name name (k.mux i) && ((k.mux i).container_id == cid))) [
    | inl t ↦
        rw (f, t, scan_mux)
          (omega arith, same_name-HasName name (k.mux i) (ground arith), ground arith)
    | inr f' ↦
        rw (f, f', scan_mux)
          (Found-next n i k name cid u (scan_mux n (suc i) k name cid u)
            (scan_mux-Found n (suc i) k name cid u))
  ]
]

-- The slot that the loop at `addtoProc` picks is free.
abbrev pub Free : ℕ → ℕ → (ℕ → Option ℕ) → Option ℕ → Slot → Type 0
Free n i slots u has_access = Unit
Free n i slots u (first_free none) = Unit
Free n i slots u (first_free (some j)) = (u ≡ some j) ⊎ ((j < i + n) × (slots j ≡ none))

Free-next :
    (n i : ℕ) (slots : ℕ → Option ℕ) (u : Option ℕ) (s : Slot)
    → Free n (suc i) slots u s
    → Free (suc n) i slots u s
Free-next n i slots u has_access f = tt
Free-next n i slots u (first_free none) f = tt
Free-next n i slots u (first_free (some j)) (inl e) = inl e
Free-next n i slots u (first_free (some j)) (inr f) = inr (omega arith, f.1)

Free-taken :
    (n i : ℕ) (slots : ℕ → Option ℕ) (u : Option ℕ) (s : Slot)
    → slots i ≡ none
    → Free n (suc i) slots (some i) s
    → Free (suc n) i slots u s
Free-taken n i slots u has_access e f = tt
Free-taken n i slots u (first_free none) e f = tt
Free-taken n i slots u (first_free (some j)) e (inl e') =
    let same : i ≡ j = ground arith in inr (omega arith, subst (λ x. slots x ≡ none) same e)
Free-taken n i slots u (first_free (some j)) e (inr f) = inr (omega arith, f.1)

null_of_test : (q : Option ℕ) → is_null q ≡ true → q ≡ none
null_of_test none h = refl
null_of_test (some a) h = cc

scan_slots-Free :
    (n i : ℕ) (slots : ℕ → Option ℕ) (m : ℕ) (u : Option ℕ)
    → Free n i slots u (scan_slots n i slots m u)
unfolding scan_slots
scan_slots-Free zero i slots m none = tt
scan_slots-Free zero i slots m (some j) = inl refl
scan_slots-Free (suc n) i slots m u = elim (Bool-cases (is_null (slots i) && is_null u)) [
  | inl t ↦
      rw (t, scan_slots)
        (Free-taken n i slots u (scan_slots n (suc i) slots m (some i))
          (null_of_test (slots i) (ground arith)) (scan_slots-Free n (suc i) slots m (some i)))
  | inr f ↦ elim (Bool-cases (same_ptr (slots i) (some m))) [
    | inl t ↦ rw (f, t, scan_slots) tt
    | inr f' ↦
        rw (f, f', scan_slots)
          (Free-next n i slots u (scan_slots n (suc i) slots m u)
            (scan_slots-Free n (suc i) slots m u))
  ]
]

-- The mutex at slot `i` after a call that returned `i`.
pub record Granted (k k' : Kernel) (cur i m : ℕ) (name : List ℕ) : Type 0 where
  pub in_table : m < mux_maxnum
  pub slot_was_free : (i < mux_maxnum) × ((k.procs cur).mutex i ≡ none)
  pub slot : (k'.procs cur).mutex i ≡ some m
  pub named : HasName name (k'.mux m)
  pub confined : (k'.mux m).container_id ≡ (k.procs cur).container_id
  pub slots_kept : (j : ℕ) → i ≢ j → (k'.procs cur).mutex j ≡ (k.procs cur).mutex j
  pub others_kept : (q : ℕ) → cur ≢ q → k'.procs q ≡ k.procs q

abbrev pub Grants : Kernel → ℕ → List ℕ → ℤ × Kernel → Type 0
Grants k cur name (pos i, k') = (m : ℕ) × Granted k k' cur i m name
Grants k cur name (negsuc r, k') = k'.procs ≡ k.procs

-- The name fits, and the call is as above.
abbrev pub GrantsOnce : Kernel → ℕ → List ℕ → Option (ℤ × Kernel) → Type 0
GrantsOnce k cur name none = ⊥
GrantsOnce k cur name (some r) = Grants k cur name r

module _ (k : Kernel) (cur : ℕ) (name : List ℕ) where
  abbrev cid : ℕ
  cid = (k.procs cur).container_id

  add_to_proc-Grants :
      (m : ℕ) (s : Slot)
      → m < mux_maxnum
      → HasName name (k.mux m)
      → (k.mux m).container_id ≡ cid
      → Free mux_maxnum 0 (k.procs cur).mutex none s
      → Grants k cur name (add_to_proc k cur m s)
  unfolding add_to_proc
  add_to_proc-Grants m has_access l h c f = refl
  add_to_proc-Grants m (first_free none) l h c f = refl
  add_to_proc-Grants m (first_free (some i)) l h c (inl e) = absurd (cc e)
  add_to_proc-Grants m (first_free (some i)) l h c (inr f) = (
    m,
    record {
      in_table = l;
      slot_was_free = (omega arith, f.1);
      slot = ground arith;
      named = rw (==_refl m) h;
      confined = ground arith;
      slots_kept = λ j ne. ground arith;
      others_kept = λ q ne. ground arith;
    },
  )

  fresh_mutex-HasName : (m : Mutex) (c : ℕ) → HasName name (fresh_mutex m name c)
  fresh_mutex-HasName m c i l clear =
      sym ((strncpy-Strncpy m.name (bytes name) (length name)).copied i l clear)

  setup_mutex-Grants : (m : ℕ) → m < mux_maxnum → Grants k cur name (setup_mutex k cur name m)
  unfolding setup_mutex
  setup_mutex-Grants m l =
      elim (find_first_cases mux_maxnum 0 (λ i. is_null ((k.procs cur).mutex i))) [
        | inl (e, clear) ↦ rw (e, setup_mutex)
        | inr (i, e, at) ↦
            rw (e, setup_mutex)
              (
                m,
                record {
                  in_table = l;
                  slot_was_free = (omega arith, null_of_test ((k.procs cur).mutex i) at.passes);
                  slot = ground arith;
                  named = rw (==_refl m) (fresh_mutex-HasName (k.mux m) cid);
                  confined = ground arith;
                  slots_kept = λ j ne. ground arith;
                  others_kept = λ q ne. ground arith;
                },
              )
      ]

  create_from-Grants :
      (s : Scan)
      → length name ≤ name_size
      → Found mux_maxnum 0 k name cid none s
      → GrantsOnce k cur name (create_from k cur name s)
  unfolding create_from
  create_from-Grants (shared m) l f =
      add_to_proc-Grants m (scan_slots mux_maxnum 0 (k.procs cur).mutex m none) (omega arith) f.1
        f.2 (scan_slots-Free mux_maxnum 0 (k.procs cur).mutex m none)
  create_from-Grants (vacant none) l f = refl
  create_from-Grants (vacant (some m)) l (inl e) = absurd (cc e)
  create_from-Grants (vacant (some m)) l (inr f) =
      let fits : ltb name_size (length name) ≡ false = ground (arith, l) in
      rw fits (setup_mutex-Grants m (omega arith))

  -- A call of `mutex_create(name)`, for a name of at most 20 bytes, that returns an index has put at
  -- that slot of the process, which was free, a mutex whose name begins with `name` and which belongs
  -- to the container of the process; all other slots and all other processes are as before. A call
  -- that returns -1 has changed no process. The copy of the name stays inside the mutex.
  pub mutex_create-Grants :
      length name ≤ name_size → GrantsOnce k cur name (mutex_create k cur name)
  unfolding mutex_create
  mutex_create-Grants l =
      create_from-Grants (scan_mux mux_maxnum 0 k name cid none) l
        (scan_mux-Found mux_maxnum 0 k name cid none)
