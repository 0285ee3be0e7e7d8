-- ===== src/Bio/Unique.antt =====
-- The buffers of bio.c: at most one for each block, and none taken away from its users.
use dockv6_project.Base.{
  ℕ, zero, suc, ◌+◌, ◌≤◌, ◌<◌, ◌≡◌, ◌≢◌, ◌⊎◌, inl, inr, refl, arith, sym, ap, ◌∙◌, ◌==◌, Bool, true,
  false, Bool-cases, Option, none, some, update, ℕ_discrete, List, [], ◌∷◌,
}
use dockv6_project.Pipe.Contents.{length}
use dockv6_project.Kernel.{inc32}
use dockv6_project.Bio.{
  nbuf, head, Buf, Bcache, search, is_for, is_unused, set_buf, count_up, recycled, choose,
}

-- The links from `b` on lead through the list and then to the head.
abbrev pub Follows : (ℕ → ℕ) → ℕ → List ℕ → Type 0
Follows link b [] = b ≡ head
Follows link b (x ∷ xs) = (b ≡ x) × (x ≢ head) × Follows link (link x) xs

abbrev pub Member : ℕ → List ℕ → Type 0
Member b [] = ⊥
Member b (x ∷ xs) = (b ≡ x) ⊎ Member b xs

-- What a search along the links finds.
abbrev Found : (ℕ → Bool) → List ℕ → Option ℕ → Type 0
Found test xs none = (b : ℕ) → Member b xs → test b ≡ false
Found test xs (some b) = (test b ≡ true) × Member b xs

Found-later :
    (test : ℕ → Bool) (x : ℕ) (xs : List ℕ) (r : Option ℕ)
    → test x ≡ false
    → Found test xs r
    → Found test (x ∷ xs) r
Found-later test x xs none miss f = λ b m. elim m [ inl e ↦ ap test e ∙ miss | inr m' ↦ f b m' ]
Found-later test x xs (some b) miss f = (f.0, inr f.1)

search-Found :
    (fuel : ℕ) (link : ℕ → ℕ) (test : ℕ → Bool) (b : ℕ) (xs : List ℕ)
    → length xs < fuel
    → Follows link b xs
    → Found test xs (search fuel link test b)
unfolding search
search-Found zero link test b xs l f = absurd (omega arith)
search-Found (suc fuel) link test b [] l f =
    let stop : (b == head) ≡ true = ground (arith, f) in rw stop (λ c m. absurd m)
search-Found (suc fuel) link test b (x ∷ xs) l f =
    let go : (b == head) ≡ false = ground (arith, f.0, f.1) in
    let rest = search-Found fuel link test (link x) xs (omega arith) f.2 in
    rw go (elim (Bool-cases (test b)) [
      | inl hit ↦ rw hit (hit, inl f.0)
      | inr miss ↦ rw (miss, f.0) (Found-later test x xs _ (ap test (sym f.0) ∙ miss) rest)
    ])

-- The list goes through all buffers, in both directions.
pub record AllLinked (c : Bcache) (xs ys : List ℕ) : Type 0 where
  pub forward : Follows c.next (c.next head) xs
  pub backward : Follows c.prev (c.prev head) ys
  pub short : (length xs ≤ nbuf) × (length ys ≤ nbuf)
  pub complete : (b : ℕ) → b < nbuf → Member b xs
  pub real : (b : ℕ) → Member b xs → b < nbuf
  pub real_back : (b : ℕ) → Member b ys → b < nbuf

-- No two buffers are for one block. Device 0 stands for a buffer that was never used.
abbrev pub Unique : (ℕ → Buf) → Type 0
Unique buf =
    (i j : ℕ)
    → i < nbuf
    → j < nbuf
    → (buf i).dev ≢ 0
    → (buf i).dev ≡ (buf j).dev
    → (buf i).blockno ≡ (buf j).blockno
    → i ≡ j

-- What `bget` chooses: the block's buffer, with one user more, or else one that nobody uses and that
-- holds nothing to be written.
pub record Chosen (c : Bcache) (dev blockno i : ℕ) (c' : Bcache) : Type 0 where
  pub inside : i < nbuf
  pub right : ((c'.buf i).dev ≡ dev) × ((c'.buf i).blockno ≡ blockno)
  pub from :
      (((c.buf i).dev ≡ dev)
        × ((c.buf i).blockno ≡ blockno)
        × ((c'.buf i).refcnt ≡ inc32 (c.buf i).refcnt))
      ⊎ (((c.buf i).refcnt ≡ 0)
          × ((c.buf i).dirty ≡ false)
          × ((c'.buf i).refcnt ≡ 1)
          × ((c'.buf i).valid ≡ false))
  pub others : (j : ℕ) → j ≢ i → c'.buf j ≡ c.buf j
  pub unique : Unique c'.buf

abbrev pub Chooses : Bcache → ℕ → ℕ → List ℕ → Option (ℕ × Bcache) → Type 0
Chooses c dev blockno ys none =
    (b : ℕ) → Member b ys → ((c.buf b).refcnt ≢ 0) ⊎ ((c.buf b).dirty ≡ true)
Chooses c dev blockno ys (some r) = Chosen c dev blockno r.0 r.1

-- What the tests of the loops say.
for_block :
    (dev blockno : ℕ) (b : Buf)
    → is_for dev blockno b ≡ true
    → (b.dev ≡ dev) × (b.blockno ≡ blockno)
for_block dev blockno b h = (ground (arith, h), ground (arith, h))

nobody_uses : (b : Buf) → is_unused b ≡ true → (b.refcnt ≡ 0) × (b.dirty ≡ false)
nobody_uses b h = (ground (arith, h), ground (arith, h))

in_use : (b : Buf) → is_unused b ≡ false → (b.refcnt ≢ 0) ⊎ (b.dirty ≡ true)
in_use b h = elim (Bool-cases b.dirty) [
  | inl d ↦ inr d
  | inr d ↦ inl (λ z. ground (arith, h, d, z))
]

hit-Chosen :
    (c : Bcache) (dev blockno i : ℕ)
    → i < nbuf
    → is_for dev blockno (c.buf i) ≡ true
    → Unique c.buf
    → Chosen c dev blockno i (set_buf c i (count_up (c.buf i)))
hit-Chosen c dev blockno i l h u = record {
  inside = l;
  right = let f = for_block dev blockno (c.buf i) h in (ground (arith, f.0), ground (arith, f.1));
  from = let f = for_block dev blockno (c.buf i) h in inl (f.0, f.1, ground arith);
  others = λ j n. ground arith;
  unique = λ a b la lb n e e'.
      u a b la lb (λ z. n (same_dev a ∙ z)) (sym (same_dev a) ∙ e ∙ same_dev b)
        (sym (same_block a) ∙ e' ∙ same_block b);
}
  where
    same_dev : (j : ℕ) → (update c.buf i (count_up (c.buf i)) j).dev ≡ (c.buf j).dev
    same_dev j = elim (ℕ_discrete i j) [
      | yes e ↦ ground (arith, ap (λ k. (c.buf k).dev) e, e)
      | no n ↦ ground (arith, n)
    ]

    same_block : (j : ℕ) → (update c.buf i (count_up (c.buf i)) j).blockno ≡ (c.buf j).blockno
    same_block j = elim (ℕ_discrete i j) [
      | yes e ↦ ground (arith, ap (λ k. (c.buf k).blockno) e, e)
      | no n ↦ ground (arith, n)
    ]

at_index : (f : ℕ → Buf) (i : ℕ) (v : Buf) (j : ℕ) → i ≡ j → update f i v j ≡ v
at_index f i v j e = ground (arith, e)

off_index : (f : ℕ → Buf) (i : ℕ) (v : Buf) (j : ℕ) → i ≢ j → update f i v j ≡ f j
off_index f i v j e = ground (arith, e)

-- A buffer for a block that had none.
Unique-recycled :
    (f : ℕ → Buf) (dev blockno i : ℕ) (v : Buf)
    → v.dev ≡ dev
    → v.blockno ≡ blockno
    → ((k : ℕ) → k < nbuf → is_for dev blockno (f k) ≡ false)
    → Unique f
    → Unique (update f i v)
Unique-recycled f dev blockno i v d n clear u a b la lb nz e e' = elim (ℕ_discrete i a) [
  | yes ia ↦ elim (ℕ_discrete i b) [
    | yes ib ↦ sym ia ∙ ib
    | no nb ↦
        let at = at_index f i v a ia in
        let off = off_index f i v b nb in
        absurd (
          other b lb (sym (ap (λ q. q.dev) off) ∙ sym e ∙ ap (λ q. q.dev) at)
            (sym (ap (λ q. q.blockno) off) ∙ sym e' ∙ ap (λ q. q.blockno) at))
  ]
  | no na ↦
      let oa = off_index f i v a na in
      elim (ℕ_discrete i b) [
        | yes ib ↦
            let at = at_index f i v b ib in
            absurd (
              other a la (sym (ap (λ q. q.dev) oa) ∙ e ∙ ap (λ q. q.dev) at)
                (sym (ap (λ q. q.blockno) oa) ∙ e' ∙ ap (λ q. q.blockno) at))
        | no nb ↦
            let ob = off_index f i v b nb in
            u a b la lb (λ z. nz (ap (λ q. q.dev) oa ∙ z))
              (sym (ap (λ q. q.dev) oa) ∙ e ∙ ap (λ q. q.dev) ob)
              (sym (ap (λ q. q.blockno) oa) ∙ e' ∙ ap (λ q. q.blockno) ob)
      ]
]
  where
    other : (k : ℕ) → k < nbuf → (f k).dev ≡ v.dev → (f k).blockno ≡ v.blockno → ⊥
    other k lk q q' = let eq = q ∙ d in let eq' = q' ∙ n in ground (arith, clear k lk, eq, eq')

recycled-Chosen :
    (c : Bcache) (dev blockno i : ℕ)
    → i < nbuf
    → is_unused (c.buf i) ≡ true
    → ((k : ℕ) → k < nbuf → is_for dev blockno (c.buf k) ≡ false)
    → Unique c.buf
    → Chosen c dev blockno i (set_buf c i (recycled (c.buf i) dev blockno))
recycled-Chosen c dev blockno i l h clear u = record {
  inside = l;
  right = (ground arith, ground arith);
  from = let f = nobody_uses (c.buf i) h in inr (f.0, f.1, ground arith, ground arith);
  others = λ j n. ground arith;
  unique = Unique-recycled c.buf dev blockno i (recycled (c.buf i) dev blockno) refl refl clear u;
}

-- `bget` keeps at most one buffer for each block: it takes the block's buffer, or, where there is
-- none, one that has no user and is not dirty, and changes no other. It panics only when each buffer
-- has a user or is dirty. The list leads through all buffers both ways.
pub choose-Unique :
    (c : Bcache) (dev blockno : ℕ) (xs ys : List ℕ)
    → AllLinked c xs ys
    → Unique c.buf
    → Chooses c dev blockno ys (choose c dev blockno)
unfolding choose
choose-Unique c dev blockno xs ys k u =
    hit (search (nbuf + 1) c.next (λ i. is_for dev blockno (c.buf i)) (c.next head)) (
      search-Found (nbuf + 1) c.next (λ i. is_for dev blockno (c.buf i)) (c.next head) xs
        (omega (arith, k.short.0)) k.forward)
  where
    spare :
        (r : Option ℕ)
        → Found (λ i. is_unused (c.buf i)) ys r
        → ((b : ℕ) → b < nbuf → is_for dev blockno (c.buf b) ≡ false)
        → Chooses c dev blockno ys (elim r [
          | some i ↦ some (i, set_buf c i (recycled (c.buf i) dev blockno))
          | none ↦ none
        ])
    spare none f clear = λ b m. in_use (c.buf b) (f b m)
    spare (some i) f clear = recycled-Chosen c dev blockno i (k.real_back i f.1) f.0 clear u

    hit :
        (r : Option ℕ)
        → Found (λ i. is_for dev blockno (c.buf i)) xs r
        → Chooses c dev blockno ys (elim r [
          | some i ↦ some (i, set_buf c i (count_up (c.buf i)))
          | none ↦ elim (search (nbuf + 1) c.prev (λ i. is_unused (c.buf i)) (c.prev head)) [
            | some i ↦ some (i, set_buf c i (recycled (c.buf i) dev blockno))
            | none ↦ none
          ]
        ])
    hit none f =
        spare (search (nbuf + 1) c.prev (λ i. is_unused (c.buf i)) (c.prev head))
          (search-Found (nbuf + 1) c.prev (λ i. is_unused (c.buf i)) (c.prev head) ys
            (omega (arith, k.short.1)) k.backward)
          (λ b l. f b (k.complete b l))
    hit (some i) f = hit-Chosen c dev blockno i (k.real i f.1) f.0 u
